-- ===== src/Startup/Restart.antt =====
-- A node that is started, runs, and is started again.
use filling_pilot_edge_rs.Common.{
  ◌≡◌, refl, subst, arith, All, String, Option, none, some, List, [], ◌∷◌,
}
use filling_pilot_edge_rs.Cloud.Loops.Steps.{Reach, begins, andthen, connects, loads_monitors}
use filling_pilot_edge_rs.Cloud.Loops.Steps.Life.{IsTimed, new-reaches-IsWellFormed}
use filling_pilot_edge_rs.Cloud.Loops.Steps.Invariant.{Reach-IsWellFormed}
use filling_pilot_edge_rs.Cloud.Loops.Steps.WellFormed.{IsWellFormed}
use filling_pilot_edge_rs.Cloud.Session.{CloudSession, new, connect, connect_to, connected_by}
use filling_pilot_edge_rs.Cloud.Types.{CloudCrates}
use filling_pilot_edge_rs.Context.{ContextCrates, Loaded, load_with_paths}
use filling_pilot_edge_rs.Error.{Result, ok, err}
use filling_pilot_edge_rs.Monitor.Config.{Monitor, MonitorProcessor}
use filling_pilot_edge_rs.Monitor.Config.Parse.{IsConfigured}
use filling_pilot_edge_rs.Monitor.Disk as Monitors
use filling_pilot_edge_rs.Monitor.Disk.Restart.{CanPersist, restart_panics}
use filling_pilot_edge_rs.S7.Crate.{S7Crate}
use filling_pilot_edge_rs.Startup.{panics, runs, new_manager, with_monitors, started, start}

module _ {s7 : S7Crate} (crates : CloudCrates s7) where
  open crates use {json, files}

  -- A start that runs has loaded monitors without a panic.
  with_monitors-runs :
      (loaded : Option MonitorProcessor) (s t : CloudSession s7)
      → with_monitors crates loaded s ≡ runs t
      → (p : MonitorProcessor) × (loaded ≡ some p) × (record s { monitor_processor = p } ≡ t)
  with_monitors-runs none s t h = absurd (cc)
  with_monitors-runs (some p) s t h = (p, refl, ground (arith, h))

  module _ (config : ContextCrates) (loaded : Loaded)
      (configured : load_with_paths config ≡ ok loaded) where
    -- Every session that a started node gets to is well formed, and of that node.
    pub start-IsWellFormed :
        (d : files.Disk) (w : s7.World) (s t : CloudSession s7)
        → IsTimed loaded.context
        → start crates config d w ≡ runs s
        → Reach crates s t
        → IsWellFormed crates (new crates loaded.context (new_manager w) []) t
    unfolding start
    start-IsWellFormed d w s t timed h r =
        let first = new crates loaded.context (new_manager w) [] in
        let linked = (connect crates first).1 in
        let h' : started crates (ok loaded) d w ≡ runs s = rw configured at h in
        let (p, e, same) = with_monitors-runs _ linked s h' in
        let reached =
          andthen first linked (record linked { monitor_processor = p })
            (andthen first first linked (begins first) (connects first))
            (loads_monitors linked d p e) in
        Reach-IsWellFormed crates first r (
          new-reaches-IsWellFormed crates loaded.context (new_manager w) [] s timed
            (subst (Reach crates first) same reached))

    connected_by-monitors :
        (r : Result (Unit {0}) String × s7.World) (s : CloudSession s7)
        → (connected_by crates r s).1.monitor_processor ≡ s.monitor_processor
    connected_by-monitors (ok done, w) s = refl
    connected_by-monitors (err e, w) s = refl

    connect_to-monitors :
        (e : Option String) (address : String) (s : CloudSession s7)
        → (connect_to crates e address s).1.monitor_processor ≡ s.monitor_processor
    connect_to-monitors none address s = connected_by-monitors _ s
    connect_to-monitors (some e) address s = refl

    -- The node has no monitors when it loads them.
    first_monitors :
        (w : s7.World)
        → (connect crates (new crates loaded.context (new_manager w) [])).1.monitor_processor
          ≡ Monitors.new
    unfolding connect new
    first_monitors w = connect_to-monitors _ _ _

    -- A node that was started and that has monitors, however it came to them, can not be started again
    -- once a round of its persistence thread has written them, as long as its configuration is loaded: the
    -- next start panics.
    pub restart-panics :
        (d before : files.Disk) (w later : s7.World) (s t : CloudSession s7) (m : Monitor)
        (monitors : List Monitor)
        → IsTimed loaded.context
        → start crates config d w ≡ runs s
        → Reach crates s t
        → t.monitor_processor.monitors ≡ m ∷ monitors
        → CanPersist json files (m ∷ monitors) before
        → start crates config
            (Monitors.persistence_round json files t.monitor_processor before)
            later
          ≡ panics
    unfolding start
    restart-panics d before w later s t m monitors timed h r e p =
        let wf = start-IsWellFormed d w s t timed h r in
        let fits = subst (All IsConfigured) e wf.configured in
        let gone = (restart_panics json files m monitors t.monitor_processor before e fits p).0 in
        rw (configured, first_monitors later, gone) refl
