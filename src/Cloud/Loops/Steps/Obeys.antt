-- ===== src/Cloud/Loops/Steps/Obeys.antt =====
-- A command keeps a session well formed.
use filling_pilot_edge_rs.Common.{
  ℕ, ◌≡◌, ◌<◌, subst, Bool, Option, none, some, List, [], Bool-cases, inl, inr, String, str_eq, ltb,
  arith, if◌then◌else◌,
}
use filling_pilot_edge_rs.Common.Int.{ℤ}
use filling_pilot_edge_rs.Context.{ServerConf}
use filling_pilot_edge_rs.Cloud.Types.{CloudCrates, ServerCommand}
use filling_pilot_edge_rs.Cloud.Session.{CloudSession, send_plc_response}
use filling_pilot_edge_rs.Cloud.Session.Signed.{send_plc_response-Sends}
use filling_pilot_edge_rs.Cloud.Config.{handle_plc_info, parse_plc_list}
use filling_pilot_edge_rs.Cloud.Command.{
  Command, plc_info, reconnect, not_implemented, read, write, status, report_submitted, client_info,
  config, unknown, update_heartbeat, apply_server_conf, config_parsed, log_slice, submitted,
  goes_on, new_random, handle_reconnect, read_parsed, write_decoded, write_parsed, handle_status,
  handle_config, run_command, handle_command,
}
use filling_pilot_edge_rs.Cloud.Loops.Steps.WellFormed.{IsWellFormed, Sends-IsWellFormed}
use filling_pilot_edge_rs.Cloud.Loops.Steps.Configures.{keep-plcs}
use filling_pilot_edge_rs.Error.{Result, ok, err}
use filling_pilot_edge_rs.Report.Cache.{ReportCache}
use filling_pilot_edge_rs.Report.Cache.Bounds.{IsBounded, operations-IsBounded}
use filling_pilot_edge_rs.Report.Cache.ColdStart.{IsCold, delete_report-IsCold}
use filling_pilot_edge_rs.S7.Crate.{S7Crate}
use filling_pilot_edge_rs.S7.Pool.{S7Manager, manager_io}
use filling_pilot_edge_rs.S7.Types.{ReadRequest, WriteRequest}

module _ {s7 : S7Crate} (crates : CloudCrates s7) (base : CloudSession s7) where
  abbrev pub Keeps : CloudSession s7 → CloudSession s7 → Type 0
  Keeps s t = IsWellFormed crates base s → IsWellFormed crates base t

  -- Sending a response keeps a session well formed.
  pub keep-response :
      (plc_id message_type message : String) (s : CloudSession s7)
      → Keeps s (send_plc_response crates plc_id message_type message s)
  keep-response plc_id message_type message s =
      Sends-IsWellFormed crates base s _ _
        (send_plc_response-Sends crates plc_id message_type message s)

  -- So do changes of what the invariant does not speak of.
  pub keep-manager :
      (manager : S7Manager s7) (s : CloudSession s7) → Keeps s (record s { s7_manager = manager })
  keep-manager manager s h = record {
    same_node = h.same_node;
    signed = h.signed;
    intervals = h.intervals;
    bounded = h.bounded;
    cold = h.cold;
    configured = h.configured;
  }

  positive : (given current : ℕ) → 0 < current → 0 < (if ltb 0 given then given else current)
  positive given current h = ground arith

  keep-conf : (conf : ServerConf) (s : CloudSession s7) → Keeps s (apply_server_conf conf s)
  unfolding apply_server_conf update_heartbeat
  keep-conf conf s h = record {
    same_node = h.same_node;
    signed = h.signed;
    intervals = (
      positive conf.heart_beat s.heart_beat_ms h.intervals.0,
      positive conf.report_interval s.report_interval_ms h.intervals.1,
      positive conf.status_interval s.status_interval_ms h.intervals.2,
    );
    bounded = h.bounded;
    cold = h.cold;
    configured = h.configured;
  }

  -- The session of a command that does not panic.
  abbrev AnswerKeeps : Option (Bool × CloudSession s7) → Type 0
  AnswerKeeps none = Unit
  AnswerKeeps (some (again, t)) = IsWellFormed crates base t

  keep-logged :
      (text : Option String) (s : CloudSession s7)
      → IsWellFormed crates base s
      → AnswerKeeps (goes_on (log_slice text s))
  keep-logged none s h = tt
  keep-logged (some text) s h = h

  keep-parsed :
      (conf : Option ServerConf) (detail : String) (s : CloudSession s7)
      → IsWellFormed crates base s
      → AnswerKeeps (goes_on (config_parsed conf detail s))
  unfolding config_parsed
  keep-parsed (some conf) detail s h = keep-conf conf s h
  keep-parsed none detail s h = keep-logged _ s h

  keep-config :
      (detail : String) (s : CloudSession s7)
      → IsWellFormed crates base s
      → AnswerKeeps (goes_on (handle_config crates detail s))
  unfolding handle_config
  keep-config detail s h = elim (Bool-cases (str_eq detail "")) [
    | inl empty ↦ rw empty h
    | inr filled ↦ rw filled (keep-parsed (crates.parse_server_conf detail) detail s h)
  ]

  keep-random : (n : Option ℤ) (s : CloudSession s7) → Keeps s (new_random crates n s)
  unfolding new_random
  keep-random (some n) s h = record {
    same_node = h.same_node;
    signed = h.signed;
    intervals = h.intervals;
    bounded = h.bounded;
    cold = h.cold;
    configured = h.configured;
  }
  keep-random none s h = record {
    same_node = h.same_node;
    signed = h.signed;
    intervals = h.intervals;
    bounded = h.bounded;
    cold = h.cold;
    configured = h.configured;
  }

  keep-read : (q : Option ReadRequest) (s : CloudSession s7) → Keeps s (read_parsed crates q s)
  unfolding read_parsed
  keep-read none s h = h
  keep-read (some q) s h = keep-response q.plc_id "read" _ _ (keep-manager _ s h)

  keep-decoded :
      (q : WriteRequest) (bytes : Result (List ℕ) String) (s : CloudSession s7)
      → Keeps s (write_decoded crates q bytes s)
  unfolding write_decoded
  keep-decoded q (err e) s h = h
  keep-decoded q (ok bytes) s h = keep-response q.plc_id "write" _ _ (keep-manager _ s h)

  keep-write : (q : Option WriteRequest) (s : CloudSession s7) → Keeps s (write_parsed crates q s)
  unfolding write_parsed
  keep-write none s h = h
  keep-write (some q) s h = keep-decoded q _ s h

  pub keep-cache :
      (cache : ReportCache) (s : CloudSession s7)
      → IsBounded cache.caches
      → (IsCold s.report_cache.caches → IsCold cache.caches)
      → Keeps s (record s { report_cache = cache })
  keep-cache cache s k cold h = record {
    same_node = h.same_node;
    signed = h.signed;
    intervals = h.intervals;
    bounded = k;
    cold = λ c. cold (h.cold c);
    configured = h.configured;
  }

  keep-submitted : (id : Option ℤ) (s : CloudSession s7) → Keeps s (submitted id s)
  unfolding submitted
  keep-submitted none s h = h
  keep-submitted (some id) s h =
      keep-cache _ s
        (operations-IsBounded (manager_io s7) crates.reports s.s7_manager [] id
          s.report_cache.caches h.bounded).2
        (delete_report-IsCold id s.report_cache.caches) h

  keep-run :
      (c : Command) (detail : String) (s : CloudSession s7)
      → IsWellFormed crates base s
      → AnswerKeeps (run_command crates c detail s)
  unfolding run_command handle_plc_info handle_reconnect handle_status
  keep-run plc_info detail s h = keep-plcs crates base detail (parse_plc_list crates detail) s h
  keep-run reconnect detail s h = keep-random _ s h
  keep-run not_implemented detail s h = h
  keep-run read detail s h = keep-read _ s h
  keep-run write detail s h = keep-write _ s h
  keep-run status detail s h = keep-response "status" "status" _ s h
  keep-run report_submitted detail s h = keep-submitted _ s h
  keep-run client_info detail s h = keep-response "" "clientInfo" _ s h
  keep-run config detail s h = keep-config detail s h
  keep-run unknown detail s h = h

  pub keep-command :
      (cmd : ServerCommand) (s t : CloudSession s7) (again : Bool)
      → handle_command crates cmd s ≡ some (again, t)
      → Keeps s t
  unfolding handle_command
  keep-command cmd s t again e h = subst AnswerKeeps e (keep-run _ cmd.detail s h)
