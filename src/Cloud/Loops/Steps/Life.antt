-- ===== src/Cloud/Loops/Steps/Life.antt =====
-- The sessions that a node can get to.
use filling_pilot_edge_rs.Common.{
  [], ℕ, ◌≡◌, ◌<◌, refl, true, Option, some, List, String, arith, if-true,
}
use filling_pilot_edge_rs.Common.Dict
use filling_pilot_edge_rs.Common.Dict.{Dict}
use filling_pilot_edge_rs.Context.{Context}
use filling_pilot_edge_rs.Cloud.Types.{CloudCrates}
use filling_pilot_edge_rs.Cloud.Session.{CloudSession, send_all, new}
use filling_pilot_edge_rs.Cloud.Loops.{
  send_reports, send_statuses, StreamItem, reset_interval, report_round, status_round, watch_round,
}
use filling_pilot_edge_rs.Cloud.Loops.Steps.{Reach}
use filling_pilot_edge_rs.Cloud.Loops.Steps.WellFormed.{IsWellFormed}
use filling_pilot_edge_rs.Cloud.Loops.Steps.Invariant.{Reach-IsWellFormed}
use filling_pilot_edge_rs.Deploy.Meta.{MetaDefinition}
use filling_pilot_edge_rs.Report.Cache.Bounds.{IsBounded}
use filling_pilot_edge_rs.Report.Cache.ColdStart.{IsCold-empty, IsCold-lists, read_round-IsCold}
use filling_pilot_edge_rs.Report.Station.{FillStation_eq}
use filling_pilot_edge_rs.S7.Crate.{S7Crate}
use filling_pilot_edge_rs.S7.Pool.{S7Manager, manager_io}

-- The intervals of a configuration of the node.
abbrev pub IsTimed : Context → Type 0
IsTimed ctx = (0 < ctx.heart_beat) × (0 < ctx.report_interval) × (0 < ctx.status_interval)

module _ {s7 : S7Crate} (crates : CloudCrates s7) where
  -- A well-formed session, seen as the first one.
  rebase :
      {base : CloudSession s7} (s : CloudSession s7)
      → IsWellFormed crates base s
      → IsWellFormed crates s s
  rebase s h = record {
    same_node = (refl, refl, λ c. c);
    signed = h.signed;
    intervals = h.intervals;
    bounded = h.bounded;
    cold = λ c. c;
    configured = h.configured;
  }

  module _ (ctx : Context) (manager : S7Manager s7) (meta : Dict String MetaDefinition) where
    new-IsWellFormed :
        IsTimed ctx
        → IsWellFormed crates (new crates ctx manager meta) (new crates ctx manager meta)
    unfolding new IsBounded
    new-IsWellFormed h = record {
      same_node = (refl, refl, λ c. c);
      signed = (tt, tt);
      intervals = h;
      bounded = tt;
      cold = λ c. c;
      configured = tt;
    }

    -- In every session that a new one, of a configuration without zero intervals, gets to by any order of
    -- connection attempts, registrations, commands, turns of the loops, callbacks, reads and writes
    -- over HTTP, and loads of its files, whatever the PLCs and the cloud answer and the files hold:
    -- the id and the key are those of the configuration, every message and info that was sent has that id
    -- and the signature of its own random number by that key, no interval is zero, no station has more
    -- reports than its setting allows, and every monitor has fields within their widths and intervals that
    -- are not below the least ones.
    pub new-reaches-IsWellFormed :
        (s : CloudSession s7)
        → IsTimed ctx
        → Reach crates (new crates ctx manager meta) s
        → IsWellFormed crates (new crates ctx manager meta) s
    new-reaches-IsWellFormed s h r =
        Reach-IsWellFormed crates (new crates ctx manager meta) r (new-IsWellFormed h)

    -- In each such session no station has a report, and the body of the report loop sends no message,
    -- whatever the PLCs and the clock answer: the node never sends a report.
    pub send_reports-silent :
        (s : CloudSession s7)
        → IsTimed ctx
        → Reach crates (new crates ctx manager meta) s
        → Dict.AllEntries (λ station reports. reports ≡ []) s.report_cache.caches
          × ((send_reports crates s).outbox ≡ s.outbox)
    unfolding send_reports send_all new
    send_reports-silent s h r =
        let cold = (new-reaches-IsWellFormed s h r).cold IsCold-empty in
        let nothing =
          (read_round-IsCold (manager_io s7) crates.reports s.s7_manager s.report_cache.caches
            cold).0 in
        (IsCold-lists s.report_cache.caches cold, rw nothing refl)

    reset_interval-eq :
        (period current : ℕ) → 0 < current → reset_interval crates period current ≡ some current
    unfolding reset_interval
    reset_interval-eq period current h = ground (arith, crates.interval-positive current h)

    -- In each such session the report loop and the status loop, whose timers take no period of zero, run
    -- their next turn, whatever their period was, and go on with the interval that is set.
    pub rounds_run :
        (s : CloudSession s7) (period : ℕ)
        → IsTimed ctx
        → Reach crates (new crates ctx manager meta) s
        → (report_round crates period s ≡ some (s.report_interval_ms, send_reports crates s))
          × (status_round crates period s ≡ some (s.status_interval_ms, send_statuses crates s))
    unfolding report_round status_round
    rounds_run s period h r =
        let k = (new-reaches-IsWellFormed s h r).intervals in
        (
          rw (reset_interval-eq period s.report_interval_ms k.1) refl,
          rw (reset_interval-eq period s.status_interval_ms k.2) refl,
        )

    -- Once such a session is connected, whatever happens to the connection, the watcher of the node never
    -- connects or registers it again.
    pub watch_round_idle :
        (s t : CloudSession s7) (streams : List (Option (List StreamItem)))
        → IsTimed ctx
        → Reach crates (new crates ctx manager meta) s
        → s.connected ≡ true
        → Reach crates s t
        → watch_round crates streams t ≡ some t
    unfolding watch_round
    watch_round_idle s t streams h r c k =
        let wf = Reach-IsWellFormed crates s k (rebase s (new-reaches-IsWellFormed s h r)) in
        let still = wf.same_node.2 c in if-true t.connected _ _ still
