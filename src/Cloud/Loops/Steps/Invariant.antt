-- ===== src/Cloud/Loops/Steps/Invariant.antt =====
-- Every step of a session keeps it well formed.
use filling_pilot_edge_rs.Common.{
  All, refl, subst, sym, Option, none, some, List, [], ◌∷◌, All-append, Bool-cases, inl, inr,
  String,
}
use filling_pilot_edge_rs.Common.Int.{pos}
use filling_pilot_edge_rs.Cloud.Types.{CloudCrates}
use filling_pilot_edge_rs.Cloud.Session.{
  CloudSession, send_all, connect, connect_to, connected_by, send_plc_status, build_ecn_info,
}
use filling_pilot_edge_rs.Cloud.Session.Signed.{send_all-Sends}
use filling_pilot_edge_rs.Cloud.Loops.{
  greet, send_reports, send_statuses, after_pass, monitor_round, send_plc_statuses,
  plc_status_round,
}
use filling_pilot_edge_rs.Cloud.Loops.Steps.{
  Step, connects, greets, obeys, reports, tells_statuses, watches_monitors, checks_plcs, calls_back,
  reads_over_http, writes_over_http, loads_meta, loads_reports, loads_monitors, Reach, begins,
  andthen,
}
use filling_pilot_edge_rs.Cloud.Loops.Steps.WellFormed.{
  IsWellFormed, IsSignedInfo, Sends-IsWellFormed,
}
use filling_pilot_edge_rs.Cloud.Loops.Steps.Obeys.{
  Keeps, keep-response, keep-manager, keep-cache, keep-command,
}
use filling_pilot_edge_rs.Error.{Result, ok, err}
use filling_pilot_edge_rs.Monitor.Config.Parse.{IsConfigured}
use filling_pilot_edge_rs.Monitor.Disk.Restart.{load_from_disk-same}
use filling_pilot_edge_rs.Monitor.Turn.{Pass, trigger_monitors_direct}
use filling_pilot_edge_rs.Report.Cache.ColdStart.{IsCold, read_round-IsCold}
use filling_pilot_edge_rs.Report.Cache.Bounds.{IsBounded, operations-IsBounded}
use filling_pilot_edge_rs.Report.Disk.Lost.{load_reports_from_disk-same}
use filling_pilot_edge_rs.Report.Status.Caches.{status-keeps_caches}
use filling_pilot_edge_rs.S7.Crate.{S7Crate}
use filling_pilot_edge_rs.S7.Pool.{manager_io, check_all_connections}
use filling_pilot_edge_rs.S7.Types.{PlcConnectionStatus}

module _ {s7 : S7Crate} (crates : CloudCrates s7) (base : CloudSession s7) where
  keep-all :
      (messages : List (String × String)) (s : CloudSession s7)
      → Keeps crates base s (send_all crates messages s)
  keep-all messages s = Sends-IsWellFormed crates base s _ _ (send_all-Sends crates messages s)

  keep-reports : (s : CloudSession s7) → Keeps crates base s (send_reports crates s)
  unfolding send_reports
  keep-reports s h = keep-all _ _ (
      keep-cache crates base _ _
        (operations-IsBounded (manager_io s7) crates.reports s.s7_manager [] (pos 0)
          s.report_cache.caches h.bounded).0
        (λ c.
          (read_round-IsCold (manager_io s7) crates.reports s.s7_manager s.report_cache.caches c).1)
        (keep-manager crates base _ s h))

  keep-statuses : (s : CloudSession s7) → Keeps crates base s (send_statuses crates s)
  unfolding send_statuses
  keep-statuses s h = keep-all _ _ (
      keep-cache crates base _ _
        (subst IsBounded
          (sym (status-keeps_caches (manager_io s7) crates.reports s.s7_manager s.report_cache))
          h.bounded)
        (subst IsCold
          (sym (status-keeps_caches (manager_io s7) crates.reports s.s7_manager s.report_cache)))
        (keep-manager crates base _ s h))

  keep-states :
      (pass : Pass (manager_io s7)) (s : CloudSession s7)
      → IsWellFormed crates base s
      → IsWellFormed crates base (record s {
        s7_manager = pass.world;
        monitor_processor = record (s.monitor_processor) { states = pass.states };
      })
  keep-states pass s h = record {
    same_node = h.same_node;
    signed = h.signed;
    intervals = h.intervals;
    bounded = h.bounded;
    cold = h.cold;
    configured = h.configured;
  }

  keep-pass :
      (pass : Pass (manager_io s7)) (s : CloudSession s7)
      → Keeps crates base s (after_pass crates pass s).1
  unfolding after_pass
  keep-pass pass s h = elim (Bool-cases pass.alive) [
    | inl alive ↦ simp alive (keep-all pass.messages _ (keep-states pass s h))
    | inr dead ↦ simp dead (keep-states pass s h)
  ]

  keep-plc_statuses :
      (statuses : List PlcConnectionStatus) (s : CloudSession s7)
      → Keeps crates base s (send_plc_statuses crates statuses s)
  unfolding send_plc_statuses send_plc_status
  keep-plc_statuses [] s h = h
  keep-plc_statuses (x ∷ statuses) s h =
      keep-plc_statuses statuses _ (keep-response crates base _ _ _ s h)

  keep-connected :
      (r : Result (Unit {0}) String × s7.World) (s : CloudSession s7)
      → Keeps crates base s (connected_by crates r s).1
  keep-connected (ok done, w) s h = record {
    same_node = (h.same_node.0, h.same_node.1, λ _. refl);
    signed = h.signed;
    intervals = h.intervals;
    bounded = h.bounded;
    cold = h.cold;
    configured = h.configured;
  }
  keep-connected (err e, w) s h = keep-manager crates base _ s h

  keep-connect_to :
      (e : Option String) (address : String) (s : CloudSession s7)
      → Keeps crates base s (connect_to crates e address s).1
  keep-connect_to none address s h = keep-connected _ s h
  keep-connect_to (some e) address s h = h

  keep-connect : (s : CloudSession s7) → Keeps crates base s (connect crates s).1
  unfolding connect
  keep-connect s h = keep-connect_to _ _ s h

  keep-greet : (s : CloudSession s7) → Keeps crates base s (greet crates s)
  unfolding build_ecn_info
  keep-greet s h = record {
    same_node = h.same_node;
    signed = (
      h.signed.0,
      All-append (IsSignedInfo crates s.id s.private_key) s.greetings (build_ecn_info crates s ∷ [])
          h.signed.1 ((refl, refl), tt),
    );
    intervals = h.intervals;
    bounded = h.bounded;
    cold = h.cold;
    configured = h.configured;
  }

  Step-IsWellFormed : {s t : CloudSession s7} → Step crates s t → Keeps crates base s t
  unfolding monitor_round plc_status_round
  Step-IsWellFormed (connects s) h = keep-connect s h
  Step-IsWellFormed (greets s c) h = keep-greet s h
  Step-IsWellFormed (obeys s t cmd again e) h = keep-command crates base cmd s t again e h
  Step-IsWellFormed (reports s) h = keep-reports s h
  Step-IsWellFormed (tells_statuses s) h = keep-statuses s h
  Step-IsWellFormed (watches_monitors s) h =
      let processor = s.monitor_processor in
      keep-pass
        (trigger_monitors_direct (manager_io s7) crates.monitors processor.monitors processor.states
          s.s7_manager)
        s h
  Step-IsWellFormed (checks_plcs s) h =
      let (statuses, manager) = check_all_connections s.s7_manager in
      keep-plc_statuses statuses _ (keep-manager crates base manager s h)
  Step-IsWellFormed (calls_back s m answer manager e) h = keep-manager crates base manager s h
  Step-IsWellFormed (reads_over_http s request) h = keep-manager crates base _ s h
  Step-IsWellFormed (writes_over_http s request) h = keep-manager crates base _ s h
  Step-IsWellFormed (loads_meta s d) h = record {
    same_node = h.same_node;
    signed = h.signed;
    intervals = h.intervals;
    bounded = h.bounded;
    cold = h.cold;
    configured = h.configured;
  }
  Step-IsWellFormed (loads_reports s d) h = record {
    same_node = h.same_node;
    signed = h.signed;
    intervals = h.intervals;
    bounded =
        subst IsBounded
          (sym (load_reports_from_disk-same crates.json crates.files d s.report_cache.caches))
          h.bounded;
    cold = λ c.
        subst IsCold
          (sym (load_reports_from_disk-same crates.json crates.files d s.report_cache.caches))
          (h.cold c);
    configured = h.configured;
  }
  Step-IsWellFormed (loads_monitors s d p e) h = record {
    same_node = h.same_node;
    signed = h.signed;
    intervals = h.intervals;
    bounded = h.bounded;
    cold = h.cold;
    configured =
        subst (λ x. All IsConfigured x.monitors)
          (sym (load_from_disk-same crates.json crates.files d s.monitor_processor p e))
          h.configured;
  }

  pub Reach-IsWellFormed : {s t : CloudSession s7} → Reach crates s t → Keeps crates base s t
  Reach-IsWellFormed (begins s) h = h
  Reach-IsWellFormed (andthen s t u r k) h = Step-IsWellFormed k (Reach-IsWellFormed r h)
