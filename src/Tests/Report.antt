-- ===== src/Tests/Report.antt =====
-- The report cache at a station with room for two reports.
use Prim.Native.String.{◌++◌ as ◌<>◌}
use filling_pilot_edge_rs.Common.{
  ℕ, ◌+◌, ◌/◌, ◌%◌, ◌≡◌, ◌≢◌, ◌↔◌, refl, String, false, some, List, [], ◌∷◌, ◌++◌, map, arith,
  get_or, filterb, All,
}
use filling_pilot_edge_rs.Common.Int.{pos, signed, pattern_of}
use filling_pilot_edge_rs.Common.Bytes.{IsByte, from_be}
use filling_pilot_edge_rs.Common.Dict
use filling_pilot_edge_rs.Error.{ok}
use filling_pilot_edge_rs.Io.{Io}
use filling_pilot_edge_rs.Report.Station.{FillStation, FillStation_eq, eq}
use filling_pilot_edge_rs.Report.PlcReport.{PlcReport}
use filling_pilot_edge_rs.Report.Crates.{Crates}
use filling_pilot_edge_rs.Report.Time.{
  extract_s7_datetime, days_since_epoch, is_leap_year, bcd_to_u8,
}
use filling_pilot_edge_rs.Report.Time.Calendar.{days_from_civil, days_since_epoch-eq-civil}
use filling_pilot_edge_rs.Report.Time.Bounds.{millis_at, extract_s7_datetime-eq}
use filling_pilot_edge_rs.Report.Cache.{
  Caches, ReportCache, collect_unsent, delete_report, update_fill_stations, store_report,
  handle_new_report_read, read_and_send_reports_direct, new_report, compare_with_last, read_task_id,
  read_reports, read_report, place, unsent_messages,
}
use filling_pilot_edge_rs.Report.Cache.Bounds.{IsBounded, operations-IsBounded}
use filling_pilot_edge_rs.Report.Cache.Delivery.{
  message, unsent, has_other_id, collect_unsent-delete_report,
}
use filling_pilot_edge_rs.Report.Cache.Handle.{described, IsOtherFill, handle_new_report_read_iff}
use filling_pilot_edge_rs.Report.Status.{should_send, update_status}
use filling_pilot_edge_rs.Report.Status.Changes.{unchanged_status_is_silent}

abbrev nibbles : List String
nibbles =
    "0" ∷ "1" ∷ "2" ∷ "3" ∷ "4" ∷ "5" ∷ "6" ∷ "7" ∷ "8" ∷ "9" ∷ "a" ∷ "b" ∷ "c" ∷ "d" ∷ "e" ∷ "f"
    ∷ []

abbrev hex_text : List ℕ → String
hex_text [] = ""
hex_text (b ∷ bs) = get_or nibbles (b / 16) "" <> (get_or nibbles (b % 16) "" <> hex_text bs)

abbrev pub crates : Crates
crates = record {
  hex_encode = hex_text;
  report_json = λ r. r.hex_content;
  status_json = λ _. "statuses";
}

-- A report block of 24 bytes: start time, end time, task number.
abbrev pub station : FillStation
station = record {
  id = "s1";
  ip = "10.0.0.1";
  port = 102;
  report_db = pos 5;
  status_db = pos 6;
  report_count = 2;
  report_db_size = 24;
  report_db_task_offset = 16;
  report_db_start_time_offset = 0;
  report_db_end_time_offset = 8;
  status_db_size = 2;
}

-- 2026-04-21 06:30:15, in BCD
abbrev start_bytes : List ℕ
start_bytes = 0x26 ∷ 0x04 ∷ 0x21 ∷ 0x06 ∷ 0x30 ∷ 0x15 ∷ 0 ∷ 0 ∷ []

abbrev block : List ℕ
block = start_bytes ++ (start_bytes ++ (0 ∷ 0 ∷ 0 ∷ 0 ∷ 0 ∷ 0 ∷ 0 ∷ 7 ∷ []))

abbrev last_report : PlcReport
last_report = record {
  report_id = pos 1;
  fill_station = "s1";
  task_id = pos 6;
  start_time = pos 0;
  end_time = pos 0;
  ip = "10.0.0.1";
  port = 102;
  db_index = pos 5;
  hex_content = "00";
  sent = false;
}

abbrev warm : Caches
warm = (station, last_report ∷ []) ∷ []

-- The PLC answers each read with the block, and the clock ticks.
abbrev io : Io
io = record {
  World = ℕ;
  read_bytes = λ ip port db offset size w. (ok block, w);
  now_millis = λ w. (w, w + 1);
}

start_millis : extract_s7_datetime block 0 ≡ some (pos 1776753015000)
unfolding extract_s7_datetime bcd_to_u8 days_since_epoch is_leap_year signed
start_millis = refl

block-IsByte : All IsByte block
block-IsByte = omega arith

-- One round of the report loop.
round : Caches → List (String × String)
unfolding read_and_send_reports_direct read_reports read_report store_report handle_new_report_read
    new_report compare_with_last read_task_id extract_s7_datetime bcd_to_u8 days_since_epoch
    is_leap_year signed place pattern_of from_be collect_unsent unsent_messages Dict.get Dict.insert
    eq
round c = (read_and_send_reports_direct io crates (1776753020000, c)).0

-- A second fill, task 7 behind task 6, is kept and sent with the report of the first.
second_fill : round warm ≡ ("report", "00") ∷ ("report", hex_text block) ∷ []
unfolding round
second_fill = refl

-- A first fill is not.
first_fill : round ((station, []) ∷ []) ≡ []
unfolding round
first_fill = refl

abbrev made : PlcReport
made = new_report crates station block 9 (pos 1776753015000) (pos 1776753015000)

handle_new_report_read_iff_example :
    (handle_new_report_read crates station (some last_report) block 9 ≡ some made) ↔ (
      (described crates station block 9 ≡ some made)
      × (made.hex_content ≢ last_report.hex_content)
      × IsOtherFill made last_report)
handle_new_report_read_iff_example =
    handle_new_report_read_iff crates station last_report made block 9 block-IsByte

extract_s7_datetime-eq_example : extract_s7_datetime block 8 ≡ some (pos (millis_at block 8))
unfolding bcd_to_u8
extract_s7_datetime-eq_example = extract_s7_datetime-eq block 8 block-IsByte

days_since_epoch-eq-civil_example : days_since_epoch 2026 4 21 ≡ some (days_from_civil 2026 4 21)
days_since_epoch-eq-civil_example =
    days_since_epoch-eq-civil 2026 4 21 (omega arith) (omega arith) (omega arith) (omega arith)
      (omega arith)

warm-IsBounded : IsBounded warm
unfolding IsBounded
warm-IsBounded = omega arith

operations-IsBounded_example :
    IsBounded (read_and_send_reports_direct io crates (5, warm)).2
    × IsBounded (update_fill_stations [] warm)
    × IsBounded (delete_report (pos 1) warm)
operations-IsBounded_example = operations-IsBounded io crates 5 [] (pos 1) warm warm-IsBounded

collect_unsent-delete_report_example :
    (collect_unsent crates warm ≡ map (message crates) (unsent warm))
    × (collect_unsent crates (delete_report (pos 1) warm)
        ≡ map (message crates) (filterb (has_other_id (pos 1)) (unsent warm)))
collect_unsent-delete_report_example = collect_unsent-delete_report crates (pos 1) warm

abbrev cache : ReportCache
cache = record { caches = warm; status_cache = []; last_status_sent_time = [] }

unchanged_status_is_silent_example :
    let s = update_status crates 10 station block ([], cache) in
    let s' = update_status crates 30010 station block s in
    (s.0 ≡ ("s1", hex_text block) ∷ [])
    × (s'.0 ≡ s.0)
    × (s'.1.last_status_sent_time ≡ s.1.last_status_sent_time)
unchanged_status_is_silent_example =
    unchanged_status_is_silent crates station block 10 30010 [] cache (omega arith) (omega arith)
      (omega arith) (unfold should_send Dict.get in refl)
