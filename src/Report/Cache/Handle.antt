-- ===== src/Report/Cache/Handle.antt =====
-- When a block that was read becomes a new report.
use filling_pilot_edge_rs.Common.{
  ℕ, ◌≡◌, ◌≢◌, ◌↔◌, ◌⊎◌, true, false, Option, none, some, List, arith, unwrap_or, All, eq_iff, inl,
  inr, Option-cases,
}
use filling_pilot_edge_rs.Common.Int.{ℤ, pos, ltb_ℤ, eq_ℤ_iff}
use filling_pilot_edge_rs.Common.Bytes.{IsByte}
use filling_pilot_edge_rs.Report.Station.{FillStation}
use filling_pilot_edge_rs.Report.PlcReport.{PlcReport}
use filling_pilot_edge_rs.Report.Crates.{Crates}
use filling_pilot_edge_rs.Report.Time.{extract_s7_datetime}
use filling_pilot_edge_rs.Report.Time.Bounds.{extract_s7_datetime_after_2000}
use filling_pilot_edge_rs.Report.Cache.{
  handle_new_report_read, compare_with_last, new_report, year_2000,
}

-- The report that a block describes, if a start time can be read.
unfoldable pub described : Crates → FillStation → List ℕ → ℕ → Option PlcReport
described crates station bytes now =
    elim (extract_s7_datetime bytes station.report_db_start_time_offset) [
      | none ↦ none
      | some start ↦ some (
          new_report crates station bytes now start
            (unwrap_or (extract_s7_datetime bytes station.report_db_end_time_offset) (pos 0)))
    ]

-- `r` tells of another fill than `last`: another positive task, or without a task another time.
abbrev pub IsOtherFill : PlcReport → PlcReport → Type 0
IsOtherFill r last =
    ((ltb_ℤ (pos 0) r.task_id ≡ true) × (last.task_id ≢ r.task_id))
    ⊎ ((ltb_ℤ (pos 0) r.task_id ≡ false)
        × ((r.start_time ≢ last.start_time) ⊎ (r.end_time ≢ last.end_time)))

compare_with_last_iff :
    (r last : PlcReport)
    → (compare_with_last r (some last) ≡ some r)
      ↔ ((r.hex_content ≢ last.hex_content) × IsOtherFill r last)
unfolding compare_with_last
compare_with_last_iff r last = ground (
  arith,
  eq_iff r.hex_content last.hex_content,
  eq_ℤ_iff last.task_id r.task_id,
  eq_ℤ_iff r.start_time last.start_time,
  eq_ℤ_iff r.end_time last.end_time,
)

compare_with_last-some :
    (r : PlcReport) (last : Option PlcReport) (x : PlcReport)
    → compare_with_last r last ≡ some x
    → x ≡ r
unfolding compare_with_last
compare_with_last-some r none x h = ground arith
compare_with_last-some r (some l) x h = ground arith

guard_passes :
    (bytes : List ℕ) (offset : ℕ) (start : ℤ)
    → All IsByte bytes
    → extract_s7_datetime bytes offset ≡ some start
    → ltb_ℤ start year_2000 ≡ false
guard_passes bytes offset start h e =
    let (n, is_pos, lo, hi) = extract_s7_datetime_after_2000 bytes offset h start e in
    rw is_pos (ground arith)

-- The test for times before 2000 never rejects a block of bytes.
handle_new_report_read-described :
    (crates : Crates) (station : FillStation) (last : Option PlcReport) (bytes : List ℕ) (now : ℕ)
    → All IsByte bytes
    → handle_new_report_read crates station last bytes now
      ≡ elim (described crates station bytes now) [
        | none ↦ none
        | some r ↦ compare_with_last r last
      ]
unfolding handle_new_report_read described
handle_new_report_read-described crates station last bytes now h =
    elim (Option-cases (extract_s7_datetime bytes station.report_db_start_time_offset)) [
      | inl missing ↦ ground arith
      | inr found ↦ ground (arith, guard_passes bytes _ found.0 h found.1, found.1)
    ]

-- A block of bytes becomes the new report `r` of a station with a last report exactly when the block has
-- a start time, `r` is the report that it describes, its content differs from that of the last report,
-- and it tells of another fill.
pub handle_new_report_read_iff :
    (crates : Crates) (station : FillStation) (last r : PlcReport) (bytes : List ℕ) (now : ℕ)
    → All IsByte bytes
    → (handle_new_report_read crates station (some last) bytes now ≡ some r) ↔ (
        (described crates station bytes now ≡ some r)
        × (r.hex_content ≢ last.hex_content)
        × IsOtherFill r last)
handle_new_report_read_iff crates station last r bytes now h =
    let step = handle_new_report_read-described crates station (some last) bytes now h in
    elim (Option-cases (described crates station bytes now)) [
      | inl missing ↦ ground (arith, step, missing)
      | inr found ↦ ground (
        arith,
        step,
        found.1,
        compare_with_last_iff found.0 last,
        compare_with_last-some found.0 (some last) r,
      )
    ]
