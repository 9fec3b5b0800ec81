-- ===== src/Tests/Cloud.antt =====
-- A session with a cloud that is always there, and a configuration of one PLC.
use filling_pilot_edge_rs.Common.{
  false, ◌++◌, ◌<◌, ℕ, ◌+◌, ◌≡◌, refl, String, true, none, some, [], ◌∷◌, arith, str_eq, ◌==◌,
  if◌then◌else◌,
}
use filling_pilot_edge_rs.Common.Dict
use filling_pilot_edge_rs.Common.Eq.{String_eq}
use filling_pilot_edge_rs.Common.Int.{pos}
use filling_pilot_edge_rs.Common.Text.{parse_signed}
use filling_pilot_edge_rs.Context.{Context, default_context}
use filling_pilot_edge_rs.Cloud.Types.{CloudCrates, ServerCommand}
use filling_pilot_edge_rs.Cloud.Session.{CloudSession, build_ecn_info, new, connect}
use filling_pilot_edge_rs.Cloud.Session.Signed.{Sends}
use filling_pilot_edge_rs.Cloud.Config.{parse_plc_list, array_in, apply_config, handle_plc_info}
use filling_pilot_edge_rs.Cloud.Config.Answers.{configured, handle_plc_info-Sends}
use filling_pilot_edge_rs.Cloud.Config.Applied.{HasStations, HasMonitors, apply_config-sets}
use filling_pilot_edge_rs.Cloud.Command.{
  command_of, handle_command, run_command, handle_reconnect, new_random,
}
use filling_pilot_edge_rs.Cloud.Command.Reconnect.{Obeyed, handle_command-Obeyed}
use filling_pilot_edge_rs.Cloud.Loops.{
  received, command_stream, heartbeat_answer, send_heartbeat, register, greet, send_reports,
  send_statuses, report_round, status_round, watch_round,
}
use filling_pilot_edge_rs.Cloud.Loops.Steps.{Reach, begins, andthen, connects, greets}
use filling_pilot_edge_rs.Cloud.Loops.Steps.WellFormed.{IsWellFormed}
use filling_pilot_edge_rs.Cloud.Loops.Steps.Life.{
  new-reaches-IsWellFormed, send_reports-silent, rounds_run, watch_round_idle,
}
use filling_pilot_edge_rs.Cloud.Loops.Streams.{
  register-reconnect, bad_detail_panics, send_heartbeat-reconnect,
}
use filling_pilot_edge_rs.Cloud.Summary.{plcs_in, extract_plc_summary}
use filling_pilot_edge_rs.Error.{ok}
use filling_pilot_edge_rs.Json.Members.{str_at, u64_at}
use filling_pilot_edge_rs.Monitor.Config.Parse.{parse_monitors}
use filling_pilot_edge_rs.Monitor.Message.{message_crates}
use filling_pilot_edge_rs.Report.Station.Parse.{parse_from_plc_info}
use filling_pilot_edge_rs.Report.Station.{FillStation_eq}
use filling_pilot_edge_rs.Tests.Disk.{files_of}
use filling_pilot_edge_rs.Tests.Report as Reports
use filling_pilot_edge_rs.Tests.Monitor as Monitors
use filling_pilot_edge_rs.Tests.Deploy.{deploys}
use filling_pilot_edge_rs.Tests.S7.{s7, hex, manager}
use filling_pilot_edge_rs.Tests.Tree.{
  Tree, text, integer, sequence, fields, cons, nil, field, no_field, tree_json,
}

-- A PLC, as the cloud describes it.
abbrev plc_tree : Tree
plc_tree = fields (
    field "id" (text "p1")
      (field "ipAddress" (text "10.0.0.1") (field "portNumber" (integer (pos 102)) no_field)))

pub interval-positive : (ms : ℕ) → 0 < ms → (if ms == 0 then none else some ms) ≡ some ms
interval-positive ms h = ground arith

abbrev pub crates : CloudCrates s7
crates = record {
  json = tree_json;
  files = files_of (sequence nil);
  hex = hex;
  reports = Reports.crates;
  monitors = message_crates tree_json hex false;
  deploys = deploys;
  parse_json = λ s. if str_eq s "[plc]" then some (sequence (cons plc_tree nil)) else none;
  parse_read = λ s. none;
  parse_write = λ s. none;
  parse_server_conf = λ s. none;
  read_json = λ r. "{}";
  write_json = λ r. "{}";
  statuses_json = λ l. "[]";
  status_json = λ s. "{}";
  Key = String;
  base64_decode = λ s. none;
  from_pkcs8_der = λ bytes. none;
  from_pkcs8_pem = λ s. some s;
  sign_bytes = λ key bytes. bytes;
  unix_millis = λ w. (some w, w);
  tcp_connect = λ ip port w. (true, w + 1);
  endpoint_error = λ address. none;
  connect = λ address w. (ok tt, w + 1);
  send = λ r w. w + 1;
  interval = λ ms. if ms == 0 then none else some ms;
  interval-positive = interval-positive;
}

abbrev pub node : Context
node = record default_context { id = "ecn-1"; private_key = some "secret" }

abbrev pub first : CloudSession s7
first = new crates node manager []

abbrev pub linked : CloudSession s7
linked = (connect crates first).1

abbrev greeted : CloudSession s7
greeted = greet crates linked

linked-connected : linked.connected ≡ true
unfolding connect new
linked-connected = refl

linked-Reach : Reach crates first linked
linked-Reach = andthen first first linked (begins first) (connects first)

greeted-Reach : Reach crates first greeted
greeted-Reach = andthen first linked greeted linked-Reach (greets linked linked-connected)

new-reaches-IsWellFormed_example : IsWellFormed crates first greeted
new-reaches-IsWellFormed_example =
    new-reaches-IsWellFormed crates node manager [] greeted (omega arith, omega arith, omega arith)
      greeted-Reach

rounds_run_example :
    (report_round crates 7 greeted ≡ some (greeted.report_interval_ms, send_reports crates greeted))
    × (status_round crates 7 greeted
        ≡ some (greeted.status_interval_ms, send_statuses crates greeted))
rounds_run_example =
    rounds_run crates node manager [] greeted 7 (omega arith, omega arith, omega arith)
      greeted-Reach

watch_round_idle_example : watch_round crates (none ∷ []) greeted ≡ some greeted
watch_round_idle_example =
    watch_round_idle crates node manager [] linked greeted (none ∷ [])
      (omega arith, omega arith, omega arith) linked-Reach linked-connected
      (andthen linked linked greeted (begins linked) (greets linked linked-connected))

handle_plc_info-Sends_example :
    Sends crates
      (configured crates "[plc]" linked)
      ("p1" ∷ "plcInfo" ∷ [])
      (handle_plc_info crates "[plc]" linked)
unfolding parse_plc_list array_in str_at u64_at Dict.get
handle_plc_info-Sends_example = handle_plc_info-Sends crates "[plc]" linked refl

apply_config-sets_example :
    let after = apply_config crates "[plc]" [] linked in
    (after.last_plc_detail ≡ "[plc]")
    × (after.s7_manager.plc_list ≡ [])
    × HasStations crates
        (parse_from_plc_info tree_json (plc_tree ∷ []))
        linked
        after
        Reports.station
    × HasMonitors crates (parse_monitors tree_json (plc_tree ∷ [])) linked after Monitors.monitor
apply_config-sets_example =
    apply_config-sets crates "[plc]" [] (plc_tree ∷ []) linked Reports.station Monitors.monitor
      (unfold array_in in refl)

abbrev reconnect_command : ServerCommand
reconnect_command = record { command_type = "reConnect"; detail = "42" }

handle_command-Obeyed_example :
    Obeyed crates
      (command_of "reConnect")
      "42"
      linked
      true
      (record linked { random_number = pos 42 })
handle_command-Obeyed_example =
    handle_command-Obeyed crates reconnect_command linked (record linked { random_number = pos 42 })
      true
      (unfold handle_command command_of run_command handle_reconnect new_random parse_signed in
        refl)

register-reconnect_example :
    register crates (some (received reconnect_command ∷ []) ∷ none ∷ []) linked
    ≡ register crates (none ∷ []) (record (greet crates linked) { random_number = pos 42 })
register-reconnect_example =
    register-reconnect crates reconnect_command [] (none ∷ []) linked (pos 42) "42" linked-connected
      (unfold command_of in refl) (unfold parse_signed in refl) (unfold extract_plc_summary in refl)

abbrev long_command : ServerCommand
long_command = record {
  command_type = "clientInfo";
  detail = "aaaaaaaaaaaaaaaaaaaaaaaaaaaaaaaaaaaaaaaaaaaaaaaaaé";
}

bad_detail_panics_example :
    (command_stream crates (received long_command ∷ []) linked ≡ none)
    × (heartbeat_answer crates (some long_command) linked ≡ none)
bad_detail_panics_example =
    bad_detail_panics crates long_command [] linked (unfold plcs_in in refl) refl refl

send_heartbeat-reconnect_example :
    send_heartbeat crates (some reconnect_command) linked
    ≡ some (record linked {
      random_number = pos 42;
      greetings = linked.greetings ++ (build_ecn_info crates linked ∷ []);
    })
send_heartbeat-reconnect_example =
    send_heartbeat-reconnect crates reconnect_command linked (pos 42) "42" linked-connected refl
      (unfold command_of in refl) (unfold parse_signed in refl) (unfold extract_plc_summary in refl)

send_reports-silent_example :
    Dict.AllEntries (λ station reports. reports ≡ []) greeted.report_cache.caches
    × ((send_reports crates greeted).outbox ≡ greeted.outbox)
send_reports-silent_example =
    send_reports-silent crates node manager [] greeted (omega arith, omega arith, omega arith)
      greeted-Reach
