-- ===== src/Cloud/Loops.antt =====
-- The loops of the session: one turn of each, on what the server sends. `none` is a panic, which ends the
-- loop's task.
pub mod Steps
pub mod Streams
use filling_pilot_edge_rs.Common.{
  ℕ, zero, String, Bool, true, false, Option, none, some, List, [], ◌∷◌, ◌++◌, not, ◌==◌, str_eq,
  if◌then◌else◌,
}
use filling_pilot_edge_rs.Cloud.Types.{CloudCrates, EcnInfo, ServerCommand}
use filling_pilot_edge_rs.Cloud.Session.{
  CloudSession, build_ecn_info, connect, send_all, send_plc_status,
}
use filling_pilot_edge_rs.Cloud.Command.{handle_command}
use filling_pilot_edge_rs.Cloud.Summary.{extract_plc_summary}
use filling_pilot_edge_rs.Error.{Result, ok, err}
use filling_pilot_edge_rs.Monitor.Turn.{Pass, trigger_monitors_direct}
use filling_pilot_edge_rs.Report.Cache.{read_and_send_reports_direct}
use filling_pilot_edge_rs.Report.Status.{read_and_send_status_direct}
use filling_pilot_edge_rs.S7.Crate.{S7Crate}
use filling_pilot_edge_rs.S7.Pool.{manager_io, check_all_connections}
use filling_pilot_edge_rs.S7.Types.{PlcConnectionStatus}

-- What comes over the command stream of a registration: a command, or an error.
pub data StreamItem : Type 0 where
  received : ServerCommand → StreamItem
  stream_error : StreamItem

module _ {s7 : S7Crate} (crates : CloudCrates s7) where
  -- The period that a loop runs with after a look at the setting.
  unfoldable pub reset_interval : ℕ → ℕ → Option ℕ
  reset_interval period current = if current == period then some period else crates.interval current

  -- A summary for the log in front of the command.
  abbrev pub with_summary :
      Option String → ServerCommand → CloudSession s7 → Option (Bool × CloudSession s7)
  with_summary none cmd s = none
  with_summary (some summary) cmd s = handle_command crates cmd s

  unfoldable pub summarised : ServerCommand → CloudSession s7 → Option (Bool × CloudSession s7)
  unfolding extract_plc_summary
  summarised cmd s =
      if str_eq cmd.detail ""
      then handle_command crates cmd s
      else with_summary (extract_plc_summary crates.json (crates.parse_json cmd.detail) cmd.detail)
          cmd s

  -- `while let Some(cmd) = stream.next()`; true after a reconnect
  abbrev pub after_item :
      Option (Bool × CloudSession s7)
      → (CloudSession s7 → Option (Bool × CloudSession s7))
      → Option (Bool × CloudSession s7)
  after_item none rest = none
  after_item (some (true, s)) rest = some (true, s)
  after_item (some (false, s)) rest = rest s

  unfoldable pub command_stream :
      List StreamItem → CloudSession s7 → Option (Bool × CloudSession s7)
  unfolding summarised
  command_stream [] s = some (false, s)
  command_stream (stream_error ∷ items) s = some (false, s)
  command_stream (received cmd ∷ items) s = after_item (summarised cmd s) (command_stream items)

  abbrev pub greet : CloudSession s7 → CloudSession s7
  greet s = record s { greetings = s.greetings ++ (build_ecn_info crates s ∷ []) }

  abbrev pub registered :
      Option (List StreamItem) → CloudSession s7 → Option (Bool × CloudSession s7)
  registered none s = some (false, s)
  registered (some items) s = command_stream items s

  -- `register_once`, with the server's stream; `none` if it refuses
  unfoldable pub register_once :
      Option (List StreamItem) → CloudSession s7 → Option (Bool × CloudSession s7)
  unfolding build_ecn_info command_stream
  register_once stream s = if s.connected then registered stream (greet s) else some (false, s)

  -- `register`: again after each reconnect, with one stream for each registration
  abbrev pub after_registration :
      Option (Bool × CloudSession s7)
      → (CloudSession s7 → Option (CloudSession s7))
      → Option (CloudSession s7)
  after_registration none again = none
  after_registration (some (true, s)) again = again s
  after_registration (some (false, s)) again = some s

  unfoldable pub register :
      List (Option (List StreamItem)) → CloudSession s7 → Option (CloudSession s7)
  unfolding register_once
  register [] s = some s
  register (stream ∷ streams) s = after_registration (register_once stream s) (register streams)

  abbrev pub session_of : Option (Bool × CloudSession s7) → Option (CloudSession s7)
  session_of none = none
  session_of (some (reconnect, s)) = some s

  abbrev pub summary_only : Option String → CloudSession s7 → Option (CloudSession s7)
  summary_only none s = none
  summary_only (some summary) s = some s

  -- The response to a heartbeat; the first `none` is an error of the call.
  unfoldable pub heartbeat_answer :
      Option ServerCommand → CloudSession s7 → Option (CloudSession s7)
  unfolding summarised
  heartbeat_answer none s = some s
  heartbeat_answer (some cmd) s =
      if str_eq cmd.command_type ""
      then (if str_eq cmd.detail ""
          then some s
          else summary_only
              (extract_plc_summary crates.json (crates.parse_json cmd.detail) cmd.detail) s)
      else session_of (summarised cmd s)

  unfoldable pub send_heartbeat : Option ServerCommand → CloudSession s7 → Option (CloudSession s7)
  unfolding build_ecn_info heartbeat_answer
  send_heartbeat answer s = if s.connected then heartbeat_answer answer (greet s) else some s

  -- A turn of a loop: the setting is looked at first, and then the body runs.
  abbrev in_round :
      Option ℕ
      → (CloudSession s7 → Option (CloudSession s7))
      → CloudSession s7
      → Option (ℕ × CloudSession s7)
  in_round none body s = none
  in_round (some period) body s = elim (body s) [ none ↦ none | some s' ↦ some (period, s') ]

  -- `start_heartbeat_loop`, `start_report_loop` and `start_status_loop`: one turn, at a period
  unfoldable pub heartbeat_round :
      Option ServerCommand → ℕ → CloudSession s7 → Option (ℕ × CloudSession s7)
  unfolding reset_interval send_heartbeat
  heartbeat_round answer period s =
      in_round (reset_interval period s.heart_beat_ms) (send_heartbeat answer) s

  unfoldable pub send_reports : CloudSession s7 → CloudSession s7
  send_reports s =
      let (unsent, manager, caches) =
        read_and_send_reports_direct (manager_io s7) crates.reports
          (s.s7_manager, s.report_cache.caches) in
      send_all crates unsent (record s {
        s7_manager = manager;
        report_cache = record (s.report_cache) { caches = caches };
      })

  unfoldable pub report_round : ℕ → CloudSession s7 → Option (ℕ × CloudSession s7)
  unfolding reset_interval send_reports
  report_round period s =
      in_round (reset_interval period s.report_interval_ms) (λ t. some (send_reports t)) s

  unfoldable pub send_statuses : CloudSession s7 → CloudSession s7
  send_statuses s =
      let (messages, manager, cache) =
        read_and_send_status_direct (manager_io s7) crates.reports (s.s7_manager, s.report_cache) in
      send_all crates messages (record s { s7_manager = manager; report_cache = cache })

  unfoldable pub status_round : ℕ → CloudSession s7 → Option (ℕ × CloudSession s7)
  unfolding reset_interval send_statuses
  status_round period s =
      in_round (reset_interval period s.status_interval_ms) (λ t. some (send_statuses t)) s

  -- What a pass over the monitors leaves, and whether it got to its end: then its messages are sent.
  unfoldable pub after_pass : Pass (manager_io s7) → CloudSession s7 → Bool × CloudSession s7
  after_pass pass s =
      let s' = record s {
        s7_manager = pass.world;
        monitor_processor = record (s.monitor_processor) { states = pass.states };
      } in
      if pass.alive then (true, send_all crates pass.messages s') else (false, s')

  -- The body of `start_monitor_loop`.
  unfoldable pub monitor_round : CloudSession s7 → Bool × CloudSession s7
  unfolding after_pass
  monitor_round s =
      let processor = s.monitor_processor in
      after_pass
        (trigger_monitors_direct (manager_io s7) crates.monitors processor.monitors processor.states
          s.s7_manager)
        s

  -- The connection watcher of the node: a session that is not connected is connected and registered.
  abbrev register_after :
      Result (Unit {0}) String × CloudSession s7
      → List (Option (List StreamItem))
      → Option (CloudSession s7)
  register_after (ok done, s) streams = register streams s
  register_after (err e, s) streams = some s

  unfoldable pub watch_round :
      List (Option (List StreamItem)) → CloudSession s7 → Option (CloudSession s7)
  unfolding register
  watch_round streams s = if s.connected then some s else register_after (connect crates s) streams

  -- The check of the PLCs' connections of the node, and its messages, which the source sends in tasks of
  -- their own, in no fixed order.
  unfoldable pub send_plc_statuses : List PlcConnectionStatus → CloudSession s7 → CloudSession s7
  send_plc_statuses [] s = s
  send_plc_statuses (status ∷ statuses) s =
      send_plc_statuses statuses (send_plc_status crates status s)

  unfoldable pub plc_status_round : CloudSession s7 → CloudSession s7
  unfolding send_plc_statuses
  plc_status_round s =
      let (statuses, manager) = check_all_connections s.s7_manager in
      send_plc_statuses statuses (record s { s7_manager = manager })
