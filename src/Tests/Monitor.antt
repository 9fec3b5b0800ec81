-- ===== src/Tests/Monitor.antt =====
-- Monitors at a PLC that always answers with two bytes.
use filling_pilot_edge_rs.Common.{ℕ, ◌+◌, ◌≡◌, refl, true, false, none, some, [], ◌∷◌, arith}
use filling_pilot_edge_rs.Common.Dict
use filling_pilot_edge_rs.Common.Eq.{String_eq}
use filling_pilot_edge_rs.Error.{ok}
use filling_pilot_edge_rs.Io.{Io}
use filling_pilot_edge_rs.Monitor.Config.{
  Monitor, Monitor_eq, MonitorState, MonitorProcessor, monitor_eq, monitor_set, update_monitors,
}
use filling_pilot_edge_rs.Monitor.Config.Update.{update_monitors_lem}
use filling_pilot_edge_rs.Monitor.Turn.{Crates, Pass, idle, take_turn, trigger_monitors_direct}
use filling_pilot_edge_rs.Monitor.Turn.Sends.{
  Outcome, reads_at, take_turn-Outcome, frequency_respected,
}
use filling_pilot_edge_rs.Monitor.Turn.Safety.{AllIdle, trigger_monitors_completes}

abbrev pub monitor : Monitor
monitor = record {
  id = "m1";
  merchant_id = "m";
  ip = "10.0.0.2";
  port = 102;
  name = "tank";
  code = "t";
  db_number = 7;
  offset = 1;
  block_size = 4;
  monitor_type = "level";
  frequency = 1000;
  resend_interval = 5000;
  forward_address = "";
  local_address = "";
}

abbrev bad_monitor : Monitor
bad_monitor = record monitor { id = "m2"; offset = 9 }

abbrev crates : Crates
crates = record { hex_encode = λ _. "00aabb00"; monitor_json = λ _ text. text; can_block = false }

abbrev io : Io
io = record {
  World = ℕ;
  read_bytes = λ ip port db offset size w. (ok (170 ∷ 187 ∷ []), w + 1);
  now_millis = λ w. (w, w);
}

abbrev was_read : MonitorState
was_read = record {
  last_read_time = some 6000;
  last_send_time = some 2000;
  text = "00aabb00";
  running = false;
}

abbrev start : Pass io
start = record { world = 9; states = []; messages = []; posts = []; alive = true }

abbrev processor : MonitorProcessor
processor = record {
  monitors = monitor ∷ bad_monitor ∷ [];
  states = ("m1", was_read) ∷ ("m2", idle) ∷ [];
  fill_stations = [];
}

take_turn-Outcome_example : Outcome was_read 6500 (take_turn io crates monitor 6500 was_read 9).0
take_turn-Outcome_example = take_turn-Outcome io crates monitor 6500 9 was_read refl

frequency_respected_example :
    ((take_turn io crates monitor 6500 was_read 9).1 ≡ 9)
    × (reads_at (take_turn io crates monitor 6500 was_read 9).0 ≡ some 6000)
frequency_respected_example =
    frequency_respected io crates monitor 6500 6000 9 was_read refl (omega arith) (omega arith)
      (omega arith)

trigger_monitors_completes_example :
    ((trigger_monitors_direct io crates (monitor ∷ []) (("m1", was_read) ∷ []) 9000).alive ≡ true)
    × AllIdle (trigger_monitors_direct io crates (monitor ∷ []) (("m1", was_read) ∷ []) 9000).states
trigger_monitors_completes_example =
    trigger_monitors_completes io crates (monitor ∷ []) (("m1", was_read) ∷ []) 9000
      ((omega arith, refl), tt) (refl, tt)

update_monitors_lem_example :
    (Dict.contains bad_monitor (update_monitors (monitor ∷ []) processor).monitors ≡ false)
    × (Dict.get "m2" (update_monitors (monitor ∷ []) processor).states ≡ none)
unfolding monitor_eq monitor_set Dict.get
update_monitors_lem_example = update_monitors_lem (monitor ∷ []) processor bad_monitor "m2"

abbrev typed_monitor : Monitor
typed_monitor = record monitor { local_address = "http://127.0.0.1:8080/level" }

-- The state after the change that the typed monitor would post.
abbrev after_change : MonitorState
after_change = record {
  last_read_time = some 9000;
  last_send_time = some 9000;
  text = "00aabb00";
  running = false;
}

abbrev untyped_monitor : Monitor
untyped_monitor = record typed_monitor { id = "m3"; monitor_type = "" }
