-- ===== src/Report/Cache.antt =====
-- The report cache (src/report/cache.rs). A method that holds the write lock of `caches` is a function on
-- the map; one that awaits the PLC also passes on the outside world.
pub mod Invariant
pub mod Bounds
pub mod ColdStart
pub mod Delivery
pub mod Stations
pub mod Handle
use filling_pilot_edge_rs.Common.{
  ℕ, suc, ◌+◌, ◌-◌, ◌%◌, String, Bool, true, false, not, ◌&&◌, ◌||◌, Option, none, some, List, [],
  ◌∷◌, ◌++◌, map, ltb, leb, str_eq, if◌then◌else◌, unwrap_or, is_none, length, take, drop, filterb,
  get_last?, is_empty,
}
use filling_pilot_edge_rs.Common.Int.{ℤ, pos, ltb_ℤ, eq_ℤ, signed, pattern_of}
use filling_pilot_edge_rs.Common.Bytes.{from_be}
use filling_pilot_edge_rs.Common.Dict
use filling_pilot_edge_rs.Common.Dict.{Dict}
use filling_pilot_edge_rs.Common.Eq.{String_eq}
use filling_pilot_edge_rs.Error.{Error, Result, ok, err}
use filling_pilot_edge_rs.Io.{Io}
use filling_pilot_edge_rs.Report.Station.{FillStation, FillStation_eq}
use filling_pilot_edge_rs.Report.PlcReport.{PlcReport}
use filling_pilot_edge_rs.Report.Crates.{Crates}
use filling_pilot_edge_rs.Report.Time.{extract_s7_datetime}

abbrev pub Caches : Type 0
Caches = Dict FillStation (List PlcReport)

pub record ReportCache : Type 0 where
  pub caches : Caches
  pub status_cache : Dict String String
  pub last_status_sent_time : Dict String ℕ

-- `x <= 0` of an i32
abbrev pub le_zero : ℤ → Bool
le_zero x = not (ltb_ℤ (pos 0) x)

abbrev pub u16_mod : ℕ
u16_mod = 65536

-- `as i64` of a u64
abbrev pub as_i64 : ℕ → ℤ
as_i64 n = signed 9223372036854775808 (n % 18446744073709551616)

-- the first millisecond of 2000
abbrev pub year_2000 : ℤ
year_2000 = pos 946684800000

-- `i64::from_be_bytes` of the eight bytes at the task offset, 0 where the block is too short
unfoldable pub read_task_id : FillStation → List ℕ → ℤ
read_task_id station report_data =
    if leb (station.report_db_task_offset + 8) (length report_data)
    then as_i64 (from_be 0 (take 8 (drop station.report_db_task_offset report_data)))
    else pos 0

-- The tests of `handle_new_report_read` behind the construction of the new report.
unfoldable pub compare_with_last : PlcReport → Option PlcReport → Option PlcReport
compare_with_last new_report none = none
compare_with_last new_report (some last) =
    if str_eq new_report.hex_content last.hex_content
    then none
    else if ltb_ℤ (pos 0) new_report.task_id
    then (if eq_ℤ last.task_id new_report.task_id then none else some new_report)
    else if eq_ℤ new_report.start_time last.start_time && eq_ℤ new_report.end_time last.end_time
    then none
    else some new_report

-- Marks a report as submitted.
abbrev mark_sent : ℤ → PlcReport → PlcReport
mark_sent report_id report =
    if eq_ℤ report.report_id report_id then record report { sent = true } else report

abbrev pub is_unsent : PlcReport → Bool
is_unsent report = not report.sent

-- The `Some(report)` branch of `read_report`.
unfoldable pub admit : FillStation → PlcReport → List PlcReport → List PlcReport
admit station report reports =
    let popped = if leb station.report_count (length reports) then drop 1 reports else reports in
    filterb is_unsent popped ++ (report ∷ [])

-- The `None` branch: `reports.back_mut()` takes over new content.
unfoldable pub refresh_last : String → List PlcReport → List PlcReport
refresh_last hex [] = []
refresh_last hex (last ∷ []) =
    (if not last.sent && not (str_eq hex last.hex_content)
      then record last { hex_content = hex; sent = false }
      else last)
    ∷ []
refresh_last hex (r ∷ s ∷ rest) = r ∷ refresh_last hex (s ∷ rest)

-- The `match` on the new report.
unfoldable pub place : FillStation → String → Option PlcReport → List PlcReport → List PlcReport
unfolding admit refresh_last
place station hex (some report) reports = admit station report reports
place station hex none reports = refresh_last hex reports

-- `for report in reports { if !report.sent { … } }`
unfoldable pub unsent_messages : Crates → List PlcReport → List (String × String)
unsent_messages crates [] = []
unsent_messages crates (report ∷ reports) =
    let rest = unsent_messages crates reports in
    if report.sent then rest else ("report", crates.report_json report) ∷ rest

-- The collection loop of `read_and_send_reports_direct`.
unfoldable pub collect_unsent : Crates → Caches → List (String × String)
collect_unsent crates [] = []
collect_unsent crates ((_, reports) ∷ caches) =
    unsent_messages crates reports ++ collect_unsent crates caches

unfoldable pub delete_report : ℤ → Caches → Caches
delete_report report_id = Dict.map_values (map (mark_sent report_id))

-- `into_iter().collect::<HashSet<_>>()`
unfoldable pub to_set : List FillStation → List FillStation
to_set [] = []
to_set (s ∷ stations) =
    let rest = to_set stations in if Dict.contains s rest then rest else s ∷ rest

-- `a.difference(&b)`
unfoldable pub difference : List FillStation → List FillStation → List FillStation
difference a b = filterb (λ s. not (Dict.contains s b)) a

unfoldable pub remove_all : List FillStation → Caches → Caches
remove_all [] caches = caches
remove_all (s ∷ to_remove) caches = remove_all to_remove (Dict.remove s caches)

unfoldable pub add_all : List FillStation → Caches → Caches
add_all [] caches = caches
add_all (s ∷ to_add) caches = add_all to_add (Dict.insert s [] caches)

unfoldable pub update_fill_stations : List FillStation → Caches → Caches
update_fill_stations stations caches =
    let new_set = to_set stations in
    let existing = Dict.keys caches in
    add_all (difference new_set existing) (remove_all (difference existing new_set) caches)

module _ (crates : Crates) where
  unfoldable pub new_report : FillStation → List ℕ → ℕ → ℤ → ℤ → PlcReport
  new_report station report_data now start_time end_time = record {
    report_id = as_i64 now;
    fill_station = station.id;
    task_id = read_task_id station report_data;
    start_time = start_time;
    end_time = end_time;
    ip = station.ip;
    port = station.port;
    db_index = station.report_db;
    hex_content = crates.hex_encode report_data;
    sent = false;
  }

  unfoldable pub handle_new_report_read :
      FillStation → Option PlcReport → List ℕ → ℕ → Option PlcReport
  handle_new_report_read station last_report report_data now =
      elim (extract_s7_datetime report_data station.report_db_start_time_offset) [
        | none ↦ none
        | some start_time ↦
            if ltb_ℤ start_time year_2000
            then none
            else let end_time =
                unwrap_or (extract_s7_datetime report_data station.report_db_end_time_offset)
                  (pos 0) in
              compare_with_last (new_report station report_data now start_time end_time) last_report
      ]

  -- `read_report` from where it takes the write lock
  unfoldable pub store_report : FillStation → List ℕ → ℕ → Caches → Caches
  store_report station report_data now caches =
      let reports = unwrap_or (Dict.get station caches) [] in
      let report = handle_new_report_read station (get_last? reports) report_data now in
      Dict.insert station (place station (crates.hex_encode report_data) report reports) caches

module _ (io : Io) (crates : Crates) where
  open io use {World, read_bytes, now_millis}

  -- the `match` on the result of the read
  unfoldable pub store_result :
      FillStation → Result (List ℕ) Error → World × Caches → World × Caches
  store_result station (err e) s = s
  store_result station (ok report_data) (w, caches) =
      let (now, w') = now_millis w in (w', store_report crates station report_data now caches)

  unfoldable pub read_report : FillStation → World × Caches → World × Caches
  unfolding store_result
  read_report station (w, caches) =
      if le_zero station.report_db
      then (w, caches)
      else let (result, w') =
          read_bytes station.ip station.port (pattern_of u16_mod station.report_db) 0
            (station.report_db_size % u16_mod) w in
        store_result station result (w', caches)

  unfoldable pub read_reports : List FillStation → World × Caches → World × Caches
  read_reports [] s = s
  read_reports (station ∷ stations) s = read_reports stations (read_report station s)

  unfoldable pub read_and_send_reports_direct :
      World × Caches → List (String × String) × World × Caches
  read_and_send_reports_direct (w, caches) =
      let (w', caches') = read_reports (Dict.keys caches) (w, caches) in
      (collect_unsent crates caches', w', caches')
