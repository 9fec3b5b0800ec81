-- ===== src/Cloud/Command.antt =====
-- The commands of the server (`handle_command`). The answer is true when the caller has to register
-- again; `none` is a panic.
pub mod Reconnect
use text.Mathlib.Text.{get?}
use Prim.Native.String.{◌++◌ as ◌<>◌, len}
use filling_pilot_edge_rs.Common.{
  ℕ, ◌+◌, ◌%◌, min, String, Bool, true, false, ◌||◌, Option, none, some, List, ltb, str_eq,
  if◌then◌else◌,
}
use filling_pilot_edge_rs.Common.Int.{ℤ, signed, pattern_of}
use filling_pilot_edge_rs.Common.Text.{parse_signed}
use filling_pilot_edge_rs.Context.{ServerConf}
use filling_pilot_edge_rs.Cloud.Types.{CloudCrates, ServerCommand}
use filling_pilot_edge_rs.Cloud.Session.{CloudSession, in_world, millis_or, send_plc_response}
use filling_pilot_edge_rs.Cloud.Config.{handle_plc_info}
use filling_pilot_edge_rs.Error.{Error, Result, ok, err}
use filling_pilot_edge_rs.Processor.{handle_read, write_outcome}
use filling_pilot_edge_rs.Report.Cache.{delete_report}
use filling_pilot_edge_rs.Report.Status.{get_all_statuses}
use filling_pilot_edge_rs.S7.Crate.{S7Crate}
use filling_pilot_edge_rs.S7.Pool.{write_bytes}
use filling_pilot_edge_rs.S7.Types.{ReadRequest, WriteRequest}

-- `self.random_number.load(…) + 1`, of an i64 in a release build
abbrev pub next_random : ℤ → ℤ
next_random n =
    signed 9223372036854775808 ((pattern_of 18446744073709551616 n + 1) % 18446744073709551616)

-- The arms of the `match` on the type of a command: an unknown type, as the empty one, is logged.
pub data Command : Type 0 where
  plc_info reconnect not_implemented read write status report_submitted client_info config : Command
  unknown : Command

unfoldable pub command_of : String → Command
command_of t =
    if str_eq t "plcInfo"
    then plc_info
    else if str_eq t "reConnect" || str_eq t "reconnect"
    then reconnect
    else if str_eq t "upgrade" || str_eq t "restart"
    then not_implemented
    else if str_eq t "read"
    then read
    else if str_eq t "write"
    then write
    else if str_eq t "status"
    then status
    else if str_eq t "ReportSubmitted" || str_eq t "reportSubmitted"
    then report_submitted
    else if str_eq t "clientInfo"
    then client_info
    else if str_eq t "config"
    then config
    else unknown

-- The interval of a configuration, unless it is zero.
abbrev pub given_or : ℕ → ℕ → ℕ
given_or given current = if ltb 0 given then given else current

module _ {s7 : S7Crate} where
  -- `update_heartbeat`
  unfoldable pub update_heartbeat : ℕ → CloudSession s7 → CloudSession s7
  update_heartbeat ms s = record s { heart_beat_ms = ms }

  unfoldable pub apply_server_conf : ServerConf → CloudSession s7 → CloudSession s7
  unfolding update_heartbeat
  apply_server_conf conf s =
      record (update_heartbeat (given_or conf.heart_beat s.heart_beat_ms) s) {
        report_interval_ms = given_or conf.report_interval s.report_interval_ms;
        status_interval_ms = given_or conf.status_interval s.status_interval_ms;
      }

  -- The log line of a configuration that is not parsed slices its first hundred bytes.
  abbrev pub log_slice : Option String → CloudSession s7 → Option (CloudSession s7)
  log_slice none s = none
  log_slice (some start) s = some s

  unfoldable pub config_parsed :
      Option ServerConf → String → CloudSession s7 → Option (CloudSession s7)
  unfolding apply_server_conf
  config_parsed (some conf) detail s = some (apply_server_conf conf s)
  config_parsed none detail s = log_slice (get? detail 0 (min (len detail) 100)) s

  unfoldable pub submitted : Option ℤ → CloudSession s7 → CloudSession s7
  submitted none s = s
  submitted (some report_id) s = record s {
    report_cache = record (s.report_cache) {
      caches = delete_report report_id s.report_cache.caches;
    };
  }

  abbrev pub goes_on : Option (CloudSession s7) → Option (Bool × CloudSession s7)
  goes_on none = none
  goes_on (some s) = some (false, s)

module _ {s7 : S7Crate} (crates : CloudCrates s7) where
  unfoldable pub new_random : Option ℤ → CloudSession s7 → CloudSession s7
  new_random (some n) s = record s { random_number = n }
  new_random none s =
      let (millis, w) = crates.unix_millis s.s7_manager.world in
      record (in_world w s) {
        random_number = millis_or crates (next_random s.random_number) millis;
      }

  unfoldable pub handle_reconnect : String → CloudSession s7 → CloudSession s7
  unfolding new_random
  handle_reconnect detail s = new_random (parse_signed 9223372036854775808 detail) s

  unfoldable pub read_parsed : Option ReadRequest → CloudSession s7 → CloudSession s7
  read_parsed none s = s
  read_parsed (some q) s =
      let (answer, manager) = handle_read crates.hex q s.s7_manager in
      send_plc_response crates q.plc_id "read" (crates.read_json answer)
        (record s { s7_manager = manager })

  unfoldable pub write_decoded :
      WriteRequest → Result (List ℕ) String → CloudSession s7 → CloudSession s7
  write_decoded q (err e) s = s
  write_decoded q (ok bytes) s =
      let (result, manager) = write_bytes q.ip q.port q.db_index q.offset bytes s.s7_manager in
      send_plc_response crates q.plc_id "write"
        (crates.write_json (write_outcome crates.hex q result)) (record s { s7_manager = manager })

  unfoldable pub write_parsed : Option WriteRequest → CloudSession s7 → CloudSession s7
  unfolding write_decoded
  write_parsed none s = s
  write_parsed (some q) s = write_decoded q (crates.hex.decode q.hex_content) s

  unfoldable pub handle_status : CloudSession s7 → CloudSession s7
  handle_status s =
      send_plc_response crates "status" "status"
        (crates.statuses_json (get_all_statuses s.report_cache)) s

  unfoldable pub handle_config : String → CloudSession s7 → Option (CloudSession s7)
  unfolding config_parsed
  handle_config detail s =
      if str_eq detail "" then some s else config_parsed (crates.parse_server_conf detail) detail s

  unfoldable pub run_command : Command → String → CloudSession s7 → Option (Bool × CloudSession s7)
  unfolding handle_reconnect read_parsed write_parsed handle_status submitted handle_config
  run_command plc_info detail s = some (false, handle_plc_info crates detail s)
  run_command reconnect detail s = some (true, handle_reconnect detail s)
  run_command not_implemented detail s = some (false, s)
  run_command read detail s = some (false, read_parsed (crates.parse_read detail) s)
  run_command write detail s = some (false, write_parsed (crates.parse_write detail) s)
  run_command status detail s = some (false, handle_status s)
  run_command report_submitted detail s =
      some (false, submitted (parse_signed 9223372036854775808 detail) s)
  run_command client_info detail s =
      some (false, send_plc_response crates "" "clientInfo" ("clientVersion: " <> s.id) s)
  run_command config detail s = goes_on (handle_config detail s)
  run_command unknown detail s = some (false, s)

  unfoldable pub handle_command : ServerCommand → CloudSession s7 → Option (Bool × CloudSession s7)
  unfolding run_command
  handle_command cmd s = run_command (command_of cmd.command_type) cmd.detail s
