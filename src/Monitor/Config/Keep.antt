-- ===== src/Monitor/Config/Keep.antt =====
-- What holds of every active monitor and of every monitor of a new configuration holds of every active
-- monitor afterwards.
use filling_pilot_edge_rs.Common.{List, [], ◌∷◌, All, All-filterb, Bool-cases, inl, inr, not}
use filling_pilot_edge_rs.Common.Dict
use filling_pilot_edge_rs.Common.Eq.{String_eq}
use filling_pilot_edge_rs.Monitor.Config.{
  Monitor, Monitor_eq, MonitorProcessor, monitor_eq, monitor_set, monitor_difference, without,
  remove_monitors, insert_monitor, insert_monitors, update_monitors,
}

module _ (P : Monitor → Type 0) where
  monitor_set-All : (ms : List Monitor) → All P ms → All P (monitor_set ms)
  unfolding monitor_set
  monitor_set-All [] h = h
  monitor_set-All (m ∷ ms) h = elim (Bool-cases (Dict.contains m (monitor_set ms))) [
    | inl twice ↦ rw twice (monitor_set-All ms h.1)
    | inr once ↦ rw once (h.0, monitor_set-All ms h.1)
  ]

  remove_monitors-All :
      (ms : List Monitor) (p : MonitorProcessor)
      → All P p.monitors
      → All P (remove_monitors ms p).monitors
  unfolding remove_monitors
  remove_monitors-All [] p h = h
  remove_monitors-All (m ∷ ms) p h =
      remove_monitors-All ms
        (record p { monitors = without m p.monitors; states = Dict.remove m.id p.states })
        (All-filterb P (λ x. not (monitor_eq m x)) p.monitors h)

  insert_monitors-All :
      (ms : List Monitor) (p : MonitorProcessor)
      → All P ms
      → All P p.monitors
      → All P (insert_monitors ms p).monitors
  unfolding insert_monitors insert_monitor
  insert_monitors-All [] p k h = h
  insert_monitors-All (m ∷ ms) p k h =
      insert_monitors-All ms (insert_monitor m p) k.1
        (elim (Bool-cases (Dict.contains m p.monitors)) [
          | inl there ↦ rw there h
          | inr new ↦ rw new (k.0, h)
        ])

  pub update_monitors-All :
      (ms : List Monitor) (p : MonitorProcessor)
      → All P ms
      → All P p.monitors
      → All P (update_monitors ms p).monitors
  unfolding update_monitors
  update_monitors-All ms p k h =
      let leaving = monitor_difference p.monitors (monitor_set ms) in
      let kept = remove_monitors leaving p in
      insert_monitors-All (monitor_difference (monitor_set ms) kept.monitors) kept
        (All-filterb P _ (monitor_set ms) (monitor_set-All ms k)) (remove_monitors-All leaving p h)
