-- ===== src/Startup.antt =====
-- The start and the end of the node (`main` in src/main.rs). The tasks that `main` starts are the steps
-- of Cloud/Loops/Steps; the threads that load the reports and the metadata are steps there, too.
pub mod Restart
use filling_pilot_edge_rs.Common.{ℕ, true, Option, none, some, []}
use filling_pilot_edge_rs.Cloud.Session.{CloudSession, new, connect}
use filling_pilot_edge_rs.Cloud.Types.{CloudCrates}
use filling_pilot_edge_rs.Context.{ContextCrates, ContextError, Loaded, load_with_paths}
use filling_pilot_edge_rs.Error.{Result, ok, err}
use filling_pilot_edge_rs.Monitor.Config.{MonitorProcessor}
use filling_pilot_edge_rs.Monitor.Disk as Monitors
use filling_pilot_edge_rs.S7.Crate.{S7Crate}
use filling_pilot_edge_rs.S7.Pool.{S7Manager, close_all}

-- What comes of a start: `process::exit`, a panic of `main`, or the session that the tasks share.
pub data Start (s7 : S7Crate) : Type 0 where
  exits : ℕ → Start s7
  panics : Start s7
  runs : CloudSession s7 → Start s7

-- `S7Manager::new`
abbrev pub new_manager : {s7 : S7Crate} → s7.World → S7Manager s7
new_manager w = record { connections = []; plc_list = []; world = w }

module _ {s7 : S7Crate} (crates : CloudCrates s7) where
  -- `mp.load_from_disk()`, which `main` calls on a thread of the runtime.
  abbrev pub with_monitors : Option MonitorProcessor → CloudSession s7 → Start s7
  with_monitors none s = panics
  with_monitors (some p) s = runs (record s { monitor_processor = p })

  abbrev pub started : Result Loaded ContextError → crates.files.Disk → s7.World → Start s7
  started (err e) d w = exits 1
  started (ok loaded) d w =
      let s = (connect crates (new crates loaded.context (new_manager w) [])).1 in
      with_monitors (Monitors.load_from_disk crates.json crates.files true d s.monitor_processor) s

  -- `main` up to the wait for a signal, with the files of the disk as they are where it loads monitors.
  unfoldable pub start : ContextCrates → crates.files.Disk → s7.World → Start s7
  start config d w = started (load_with_paths config) d w

  -- `main` after the signal, before it ends the tasks.
  unfoldable pub shutdown : CloudSession s7 → CloudSession s7
  shutdown s = record s { s7_manager = close_all s.s7_manager }
