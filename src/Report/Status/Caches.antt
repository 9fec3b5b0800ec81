-- ===== src/Report/Status/Caches.antt =====
-- A status round leaves the cached reports as they are.
use filling_pilot_edge_rs.Common.{ℕ, ◌≡◌, refl, ◌∙◌, String, List, [], ◌∷◌, Bool-cases, inl, inr}
use filling_pilot_edge_rs.Common.Dict
use filling_pilot_edge_rs.Common.Eq.{String_eq}
use filling_pilot_edge_rs.Error.{Error, Result, ok, err}
use filling_pilot_edge_rs.Io.{Io}
use filling_pilot_edge_rs.Report.Cache.{ReportCache, le_zero}
use filling_pilot_edge_rs.Report.Crates.{Crates}
use filling_pilot_edge_rs.Report.Station.{FillStation}
use filling_pilot_edge_rs.Report.Status.{
  StatusRound, should_send, update_status, status_result, read_status, read_statuses,
  read_and_send_status_direct,
}

caches-update_status :
    (crates : Crates) (now : ℕ) (station : FillStation) (bytes : List ℕ)
    (list : List (String × String)) (c : ReportCache)
    → (update_status crates now station bytes (list, c)).1.caches ≡ c.caches
unfolding update_status
caches-update_status crates now station bytes list c =
    let status = crates.hex_encode bytes in
    let previous = Dict.get station.id c.status_cache in
    let last = Dict.get station.id c.last_status_sent_time in
    elim (Bool-cases (should_send previous status last now)) [
      | inl send ↦ simp send refl
      | inr quiet ↦ simp quiet refl
    ]

module _ (io : Io) (crates : Crates) where
  caches-status_result :
      (now : ℕ) (station : FillStation) (r : Result (List ℕ) Error) (s : StatusRound io)
      → (status_result io crates now station r s).1.1.caches ≡ s.1.1.caches
  unfolding status_result
  caches-status_result now station (err e) s = refl
  caches-status_result now station (ok bytes) s = caches-update_status crates now station bytes _ _

  caches-read_status :
      (now : ℕ) (station : FillStation) (s : StatusRound io)
      → (read_status io crates now station s).1.1.caches ≡ s.1.1.caches
  unfolding read_status
  caches-read_status now station s = elim (Bool-cases (le_zero station.status_db)) [
    | inl off ↦ simp off refl
    | inr on ↦ simp on (caches-status_result now station _ _)
  ]

  caches-read_statuses :
      (now : ℕ) (stations : List FillStation) (s : StatusRound io)
      → (read_statuses io crates now stations s).1.1.caches ≡ s.1.1.caches
  unfolding read_statuses
  caches-read_statuses now [] s = refl
  caches-read_statuses now (station ∷ stations) s =
      caches-read_statuses now stations (read_status io crates now station s)
      ∙ caches-read_status now station s

  -- A status round, whatever the PLCs answer, leaves the cached reports as they are.
  pub status-keeps_caches :
      (w : io.World) (c : ReportCache)
      → (read_and_send_status_direct io crates (w, c)).2.caches ≡ c.caches
  unfolding read_and_send_status_direct
  status-keeps_caches w c = caches-read_statuses _ (Dict.keys c.caches) _
