-- ===== src/Report/Cache/Delivery.antt =====
-- Which reports are sent, and what submitting and storing change of that.
use filling_pilot_edge_rs.Common.{
  ◌≡◌, refl, Bool, false, not, List, [], ◌∷◌, ◌++◌, map, arith, String, filterb, length, drop, leb,
  if◌then◌else◌, ◌&&◌,
}
use mathlib.Core.List.{map-append}
use filling_pilot_edge_rs.Common.Int.{ℤ, eq_ℤ}
use filling_pilot_edge_rs.Common.Dict
use filling_pilot_edge_rs.Report.Station.{FillStation}
use filling_pilot_edge_rs.Report.PlcReport.{PlcReport}
use filling_pilot_edge_rs.Report.Crates.{Crates}
use filling_pilot_edge_rs.Report.Cache.{
  Caches, is_unsent, unsent_messages, collect_unsent, delete_report, mark_sent, admit,
}

-- The reports of all stations that are not yet submitted, in the order of the cache.
unfoldable pub unsent : Caches → List PlcReport
unsent [] = []
unsent ((_, reports) ∷ c) = filterb is_unsent reports ++ unsent c

abbrev pub message : Crates → PlcReport → String × String
message crates report = ("report", crates.report_json report)

abbrev pub has_other_id : ℤ → PlcReport → Bool
has_other_id id report = not (eq_ℤ report.report_id id)

filterb-append :
    {A : Type 0} (p : A → Bool) (xs ys : List A)
    → filterb p (xs ++ ys) ≡ filterb p xs ++ filterb p ys
filterb-append p [] ys = refl
filterb-append p (x ∷ xs) ys = ground (arith, filterb-append p xs ys)

unsent_messages-map :
    (crates : Crates) (reports : List PlcReport)
    → unsent_messages crates reports ≡ map (message crates) (filterb is_unsent reports)
unfolding unsent_messages
unsent_messages-map crates [] = refl
unsent_messages-map crates (r ∷ reports) = ground (arith, unsent_messages-map crates reports)

pub collect_unsent-map :
    (crates : Crates) (c : Caches) → collect_unsent crates c ≡ map (message crates) (unsent c)
unfolding collect_unsent unsent
collect_unsent-map crates [] = refl
collect_unsent-map crates ((s, reports) ∷ c) =
    simp (unsent_messages-map, collect_unsent-map crates c, map-append)

filterb-mark_sent :
    (id : ℤ) (reports : List PlcReport)
    → filterb is_unsent (map (mark_sent id) reports)
      ≡ filterb (has_other_id id) (filterb is_unsent reports)
filterb-mark_sent id [] = refl
filterb-mark_sent id (r ∷ reports) = ground (arith, filterb-mark_sent id reports)

unsent-delete_report :
    (id : ℤ) (c : Caches) → unsent (delete_report id c) ≡ filterb (has_other_id id) (unsent c)
unfolding unsent delete_report Dict.map_values
unsent-delete_report id [] = refl
unsent-delete_report id ((s, reports) ∷ c) =
    simp (filterb-append, filterb-mark_sent, unsent-delete_report id c)

-- A round sends every report that is not submitted, each once and in order; once the cloud has
-- submitted an id, exactly the reports of that id are left out.
pub collect_unsent-delete_report :
    (crates : Crates) (id : ℤ) (c : Caches)
    → (collect_unsent crates c ≡ map (message crates) (unsent c))
      × (collect_unsent crates (delete_report id c)
          ≡ map (message crates) (filterb (has_other_id id) (unsent c)))
collect_unsent-delete_report crates id c = (
  collect_unsent-map crates c,
  rw (collect_unsent-map crates (delete_report id c), unsent-delete_report id c),
)

abbrev pub head_unsent : List PlcReport → Bool
head_unsent [] = false
head_unsent (r ∷ reports) = is_unsent r

-- When a new report is added, the station keeps its unsent reports in order, with the new one behind
-- them, and loses one of those exactly when the list is full and its oldest report is not submitted.
pub admit_loss :
    (station : FillStation) (report : PlcReport) (reports : List PlcReport)
    → admit station report reports
      ≡ drop
          (if leb station.report_count (length reports) && head_unsent reports then 1 else 0)
          (filterb is_unsent reports)
        ++ (report ∷ [])
unfolding admit
admit_loss station report [] = ground arith
admit_loss station report (r ∷ reports) = ground arith
