-- ===== src/Monitor/Config/Update.antt =====
-- A new configuration of the monitors.
use filling_pilot_edge_rs.Common.{
  ap, ◌≡◌, refl, Bool, not, ◌||◌, ◌&&◌, none, List, [], ◌∷◌, arith, String, filterb, if◌then◌else◌,
  ◌∙◌,
}
use filling_pilot_edge_rs.Common.Dict
use filling_pilot_edge_rs.Common.Dict.{contains}
use filling_pilot_edge_rs.Common.Eq.{String_eq}
use filling_pilot_edge_rs.Monitor.Config.{
  Monitor, Monitor_eq, MonitorProcessor, monitor_eq, monitor_eq_correct, monitor_set,
  monitor_difference, without, remove_monitors, insert_monitor, insert_monitors, update_monitors,
}

contains-filterb :
    (p : Monitor → Bool) (m : Monitor) (l : List Monitor)
    → contains m (filterb p l) ≡ (contains m l && p m)
contains-filterb p m [] = refl
contains-filterb p m (x ∷ l) = ground (arith, contains-filterb p m l, monitor_eq_correct m x)

contains-monitor_set : (m : Monitor) (l : List Monitor) → contains m (monitor_set l) ≡ contains m l
unfolding monitor_set
contains-monitor_set m [] = refl
contains-monitor_set m (x ∷ l) =
    ground (arith, contains-monitor_set m l, monitor_eq_correct m x, contains-monitor_set x l)

-- The ids of monitors.
abbrev pub ids : List Monitor → List String
ids [] = []
ids (m ∷ ms) = m.id ∷ ids ms

contains-remove_monitors :
    (m : Monitor) (l : List Monitor) (p : MonitorProcessor)
    → contains m (remove_monitors l p).monitors ≡ (contains m p.monitors && not (contains m l))
unfolding remove_monitors
contains-remove_monitors m [] p = ground arith
contains-remove_monitors m (x ∷ l) p =
    contains-remove_monitors m l
      (record p { monitors = without x p.monitors; states = Dict.remove x.id p.states })
    ∙ ground (
      arith,
      contains-filterb (λ y. not (monitor_eq x y)) m p.monitors,
      monitor_eq_correct x m,
      monitor_eq_correct m x,
    )

states-remove_monitors :
    (id : String) (l : List Monitor) (p : MonitorProcessor)
    → Dict.get id (remove_monitors l p).states
      ≡ (if contains id (ids l) then none else Dict.get id p.states)
unfolding remove_monitors
states-remove_monitors id [] p = refl
states-remove_monitors id (x ∷ l) p =
    states-remove_monitors id l
      (record p { monitors = without x p.monitors; states = Dict.remove x.id p.states })
    ∙ ground (arith, Dict.get-remove id x.id p.states)

contains-insert_monitors :
    (m : Monitor) (l : List Monitor) (p : MonitorProcessor)
    → contains m (insert_monitors l p).monitors ≡ (contains m p.monitors || contains m l)
unfolding insert_monitors insert_monitor
contains-insert_monitors m [] p = ground arith
contains-insert_monitors m (x ∷ l) p =
    contains-insert_monitors m l (insert_monitor x p) ∙ ground (arith, monitor_eq_correct m x)

states-insert_monitors :
    (l : List Monitor) (p : MonitorProcessor) → (insert_monitors l p).states ≡ p.states
unfolding insert_monitors insert_monitor
states-insert_monitors [] p = refl
states-insert_monitors (x ∷ l) p = states-insert_monitors l (insert_monitor x p)

-- After a new configuration exactly its monitors are active. The state of an id is dropped exactly when a
-- monitor with this id was active and is not in the configuration as it was; other states stay.
pub update_monitors_lem :
    (new : List Monitor) (p : MonitorProcessor) (m : Monitor) (id : String)
    → (contains m (update_monitors new p).monitors ≡ contains m new)
      × (Dict.get id (update_monitors new p).states ≡ (
          if contains id (ids (monitor_difference p.monitors (monitor_set new)))
          then none
          else Dict.get id p.states))
unfolding update_monitors
update_monitors_lem new p m id =
    let leaving = monitor_difference p.monitors (monitor_set new) in
    let kept = remove_monitors leaving p in
    let arriving = monitor_difference (monitor_set new) kept.monitors in
    (
      ground (
        arith,
        contains-insert_monitors m arriving kept,
        contains-remove_monitors m leaving p,
        contains-filterb (λ x. not (contains x (monitor_set new))) m p.monitors,
        contains-filterb (λ x. not (contains x kept.monitors)) m (monitor_set new),
        contains-monitor_set m new,
      ),
      ap (Dict.get id) (states-insert_monitors arriving kept) ∙ states-remove_monitors id leaving p,
    )
