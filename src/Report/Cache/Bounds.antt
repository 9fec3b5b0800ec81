-- ===== src/Report/Cache/Bounds.antt =====
-- The number of cached reports of each station stays within its setting.
use filling_pilot_edge_rs.Common.{
  ℕ, suc, ◌≤◌, ◌≡◌, refl, Option, none, some, List, [], ◌∷◌, map, arith, leb, max, length, filterb,
  drop, length-append, length-filterb-le, length-drop, unwrap_or, if◌then◌else◌, Option-cases, inl,
  inr, String, ap,
}
use filling_pilot_edge_rs.Common.Int.{ℤ}
use filling_pilot_edge_rs.Common.Dict
use filling_pilot_edge_rs.Report.Station.{FillStation, FillStation_eq}
use filling_pilot_edge_rs.Report.PlcReport.{PlcReport}
use filling_pilot_edge_rs.Report.Crates.{Crates}
use filling_pilot_edge_rs.Io.{Io}
use filling_pilot_edge_rs.Report.Cache.{
  Caches, admit, refresh_last, place, is_unsent, store_report, delete_report,
  read_and_send_reports_direct, update_fill_stations, add_all, remove_all, mark_sent,
}
use filling_pilot_edge_rs.Report.Cache.Invariant.{read_round-keeps}

-- At most `report_count` reports, and one where that is 0.
abbrev pub HasRoom : FillStation → List PlcReport → Type 0
HasRoom station reports = length reports ≤ max 1 station.report_count

unfoldable pub IsBounded : Caches → Type 0
IsBounded = Dict.AllEntries HasRoom

pub length-refresh_last :
    (hex : String) (reports : List PlcReport) → length (refresh_last hex reports) ≡ length reports
unfolding refresh_last
length-refresh_last hex [] = refl
length-refresh_last hex (r ∷ []) = refl
length-refresh_last hex (r ∷ s ∷ rest) = omega (arith, length-refresh_last hex (s ∷ rest))

admit-HasRoom :
    (station : FillStation) (report : PlcReport) (reports : List PlcReport)
    → HasRoom station reports
    → HasRoom station (admit station report reports)
unfolding admit
admit-HasRoom station report reports h = ground (
  arith,
  length-append
      (filterb is_unsent
        (if leb station.report_count (length reports) then drop 1 reports else reports))
      (report ∷ []),
  length-filterb-le is_unsent reports,
  length-filterb-le is_unsent (drop 1 reports),
  length-drop 1 reports,
)

get-HasRoom :
    (station : FillStation) (c : Caches)
    → IsBounded c
    → HasRoom station (unwrap_or (Dict.get station c) [])
unfolding IsBounded
get-HasRoom station c h = elim (Option-cases (Dict.get station c)) [
  | inl missing ↦ rw missing (omega arith)
  | inr found ↦ rw found.1 (Dict.get-AllEntries HasRoom station c found.0 h found.1)
]

place-HasRoom :
    (station : FillStation) (hex : String) (new : Option PlcReport) (reports : List PlcReport)
    → HasRoom station reports
    → HasRoom station (place station hex new reports)
unfolding place
place-HasRoom station hex (some report) reports h = admit-HasRoom station report reports h
place-HasRoom station hex none reports h = rw (length-refresh_last hex reports) h

-- One stored block keeps every station within its bound.
pub store_report-IsBounded :
    (crates : Crates) (station : FillStation) (bytes : List ℕ) (now : ℕ) (c : Caches)
    → IsBounded c
    → IsBounded (store_report crates station bytes now c)
unfolding IsBounded store_report
store_report-IsBounded crates station bytes now c h =
    Dict.insert-AllEntries HasRoom station _ c
      (place-HasRoom station (crates.hex_encode bytes) _ _ (get-HasRoom station c h)) h

length-map : {A B : Type 0} (f : A → B) (xs : List A) → length (map f xs) ≡ length xs
length-map f [] = refl
length-map f (x ∷ xs) = ap suc (length-map f xs)

delete_report-IsBounded : (id : ℤ) (c : Caches) → IsBounded c → IsBounded (delete_report id c)
unfolding IsBounded delete_report
delete_report-IsBounded id c h =
    Dict.map_values-AllEntries HasRoom HasRoom (map (mark_sent id)) c
      (λ k v p. rw (length-map (mark_sent id) v) p) h

remove_all-IsBounded :
    (l : List FillStation) (c : Caches) → IsBounded c → IsBounded (remove_all l c)
unfolding IsBounded remove_all
remove_all-IsBounded [] c h = h
remove_all-IsBounded (s ∷ l) c h =
    remove_all-IsBounded l (Dict.remove s c) (Dict.remove-AllEntries HasRoom s c h)

add_all-IsBounded : (l : List FillStation) (c : Caches) → IsBounded c → IsBounded (add_all l c)
unfolding IsBounded add_all
add_all-IsBounded [] c h = h
add_all-IsBounded (s ∷ l) c h =
    add_all-IsBounded l (Dict.insert s [] c) (Dict.insert-AllEntries HasRoom s [] c (omega arith) h)

-- A read round over all stations, whatever the PLCs answer, a change of the configuration and a
-- submitted report each keep every station's list within max(1, report_count).
pub operations-IsBounded :
    (io : Io) (crates : Crates) (w : io.World) (stations : List FillStation) (id : ℤ) (c : Caches)
    → IsBounded c
    → IsBounded (read_and_send_reports_direct io crates (w, c)).2
      × IsBounded (update_fill_stations stations c)
      × IsBounded (delete_report id c)
unfolding update_fill_stations
operations-IsBounded io crates w stations id c h = (
  read_round-keeps io crates IsBounded (store_report-IsBounded crates) w c h,
  add_all-IsBounded _ _ (remove_all-IsBounded _ c h),
  delete_report-IsBounded id c h,
)
