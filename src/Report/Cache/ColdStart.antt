-- ===== src/Report/Cache/ColdStart.antt =====
-- A station whose list of reports is empty never gets a report: `handle_new_report_read` makes a new
-- report only where there is a last one to compare it with.
use filling_pilot_edge_rs.Common.{
  ℕ, ◌≡◌, refl, none, List, [], ◌∷◌, map, arith, unwrap_or, Option-cases, inl, inr,
}
use filling_pilot_edge_rs.Common.Int.{ℤ}
use filling_pilot_edge_rs.Common.Dict
use filling_pilot_edge_rs.Report.Station.{FillStation, FillStation_eq}
use filling_pilot_edge_rs.Report.PlcReport.{PlcReport}
use filling_pilot_edge_rs.Report.Crates.{Crates}
use filling_pilot_edge_rs.Io.{Io}
use filling_pilot_edge_rs.Report.Cache.{
  Caches, handle_new_report_read, compare_with_last, place, refresh_last, store_report,
  unsent_messages, collect_unsent, delete_report, update_fill_stations, add_all, remove_all,
  mark_sent, read_and_send_reports_direct,
}
use filling_pilot_edge_rs.Report.Cache.Invariant.{read_round-keeps}

abbrev IsEmptyList : FillStation → List PlcReport → Type 0
IsEmptyList station reports = reports ≡ []

pub IsCold : Caches → Type 0
IsCold = Dict.AllEntries IsEmptyList

pub handle_new_report_read-first :
    (crates : Crates) (station : FillStation) (bytes : List ℕ) (now : ℕ)
    → handle_new_report_read crates station none bytes now ≡ none
unfolding handle_new_report_read compare_with_last
handle_new_report_read-first crates station bytes now = ground arith

get-empty : (station : FillStation) (c : Caches) → IsCold c → unwrap_or (Dict.get station c) [] ≡ []
unfolding IsCold
get-empty station c h = elim (Option-cases (Dict.get station c)) [
  | inl missing ↦ rw missing
  | inr found ↦ rw found.1 (Dict.get-AllEntries IsEmptyList station c found.0 h found.1)
]

pub store_report-IsCold :
    (crates : Crates) (station : FillStation) (bytes : List ℕ) (now : ℕ) (c : Caches)
    → IsCold c
    → IsCold (store_report crates station bytes now c)
unfolding IsCold store_report
store_report-IsCold crates station bytes now c h =
    Dict.insert-AllEntries IsEmptyList station _ c
      (rw (get-empty station c h, handle_new_report_read-first crates station bytes now)
        (unfold place refresh_last in refl))
      h

pub delete_report-IsCold : (id : ℤ) (c : Caches) → IsCold c → IsCold (delete_report id c)
unfolding IsCold delete_report
delete_report-IsCold id c h =
    Dict.map_values-AllEntries IsEmptyList IsEmptyList (map (mark_sent id)) c (λ k v p. rw p) h

remove_all-IsCold : (l : List FillStation) (c : Caches) → IsCold c → IsCold (remove_all l c)
unfolding IsCold remove_all
remove_all-IsCold [] c h = h
remove_all-IsCold (s ∷ l) c h =
    remove_all-IsCold l (Dict.remove s c) (Dict.remove-AllEntries IsEmptyList s c h)

add_all-IsCold : (l : List FillStation) (c : Caches) → IsCold c → IsCold (add_all l c)
unfolding IsCold add_all
add_all-IsCold [] c h = h
add_all-IsCold (s ∷ l) c h =
    add_all-IsCold l (Dict.insert s [] c) (Dict.insert-AllEntries IsEmptyList s [] c refl h)

pub update_fill_stations-IsCold :
    (stations : List FillStation) (c : Caches) → IsCold c → IsCold (update_fill_stations stations c)
unfolding update_fill_stations
update_fill_stations-IsCold stations c h = add_all-IsCold _ _ (remove_all-IsCold _ c h)

collect_unsent-cold : (crates : Crates) (c : Caches) → IsCold c → collect_unsent crates c ≡ []
unfolding IsCold collect_unsent unsent_messages
collect_unsent-cold crates [] h = refl
collect_unsent-cold crates ((s, reports) ∷ c) h = rw h.0 (collect_unsent-cold crates c h.1)

-- A read round over a cold cache keeps it cold, and has no message.
pub read_round-IsCold :
    (io : Io) (crates : Crates) (w : io.World) (c : Caches)
    → IsCold c
    → ((read_and_send_reports_direct io crates (w, c)).0 ≡ [])
      × IsCold (read_and_send_reports_direct io crates (w, c)).2
unfolding read_and_send_reports_direct
read_round-IsCold io crates w c h =
    let kept = read_round-keeps io crates IsCold (store_report-IsCold crates) w c h in
    (collect_unsent-cold crates _ kept, kept)

-- The empty cache of a start is cold, and every list of a cold cache is empty.
pub IsCold-empty : IsCold []
unfolding IsCold
IsCold-empty = tt

pub IsCold-lists : (c : Caches) → IsCold c → Dict.AllEntries (λ station reports. reports ≡ []) c
unfolding IsCold
IsCold-lists c h = h
