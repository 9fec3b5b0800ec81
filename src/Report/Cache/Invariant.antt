-- ===== src/Report/Cache/Invariant.antt =====
-- A predicate on the cache that one stored block keeps is kept by whole read rounds, whatever the PLCs
-- and the clock answer.
use filling_pilot_edge_rs.Common.{ℕ, List, [], ◌∷◌, Bool-cases, inl, inr}
use filling_pilot_edge_rs.Error.{Error, Result, ok, err}
use filling_pilot_edge_rs.Io.{Io}
use filling_pilot_edge_rs.Common.Dict
use filling_pilot_edge_rs.Report.Station.{FillStation}
use filling_pilot_edge_rs.Report.Crates.{Crates}
use filling_pilot_edge_rs.Report.Cache.{
  Caches, le_zero, store_report, store_result, read_report, read_reports,
  read_and_send_reports_direct,
}

module _ (io : Io) (crates : Crates) (P : Caches → Type 0)
    (step : (station : FillStation) (bytes : List ℕ) (now : ℕ) (c : Caches)
      → P c
      → P (store_report crates station bytes now c)) where
  open io use {World}

  store_result-keeps :
      (station : FillStation) (r : Result (List ℕ) Error) (w : World) (c : Caches)
      → P c
      → P (store_result io crates station r (w, c)).1
  unfolding store_result
  store_result-keeps station (ok bytes) w c h = step station bytes (io.now_millis w).0 c h
  store_result-keeps station (err e) w c h = h

  pub read_report-keeps :
      (station : FillStation) (w : World) (c : Caches)
      → P c
      → P (read_report io crates station (w, c)).1
  unfolding read_report
  read_report-keeps station w c h = elim (Bool-cases (le_zero station.report_db)) [
    | inl off ↦ rw off h
    | inr on ↦ rw on (store_result-keeps station _ _ c h)
  ]

  pub read_reports-keeps :
      (stations : List FillStation) (s : World × Caches)
      → P s.1
      → P (read_reports io crates stations s).1
  unfolding read_reports
  read_reports-keeps [] s h = h
  read_reports-keeps (station ∷ stations) (w, c) h =
      read_reports-keeps stations (read_report io crates station (w, c))
        (read_report-keeps station w c h)

  pub read_round-keeps :
      (w : World) (c : Caches) → P c → P (read_and_send_reports_direct io crates (w, c)).2
  unfolding read_and_send_reports_direct
  read_round-keeps w c h = read_reports-keeps (Dict.keys c) (w, c) h
