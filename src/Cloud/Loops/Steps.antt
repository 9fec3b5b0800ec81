-- ===== src/Cloud/Loops/Steps.antt =====
-- The session's life as a sequence of steps: its loops and the server's commands, in any order.
pub mod WellFormed
pub mod Configures
pub mod Obeys
pub mod Invariant
pub mod Life
use filling_pilot_edge_rs.Common.{ℕ, String, Option, ◌≡◌, true, Bool, Option, some, List, ◌++◌}
use filling_pilot_edge_rs.Cloud.Types.{CloudCrates, ServerCommand}
use filling_pilot_edge_rs.Cloud.Session.{CloudSession, connect}
use filling_pilot_edge_rs.Cloud.Command.{handle_command}
use filling_pilot_edge_rs.Cloud.Loops.{
  greet, send_reports, send_statuses, monitor_round, plc_status_round,
}
use filling_pilot_edge_rs.Deploy.Disk as Meta
use filling_pilot_edge_rs.Monitor.Config.{Monitor, MonitorProcessor}
use filling_pilot_edge_rs.Monitor.Disk as Monitors
use filling_pilot_edge_rs.Report.Disk.{load_reports_from_disk}
use filling_pilot_edge_rs.Monitor.Post.{post_answered}
use filling_pilot_edge_rs.Http.{read_handler, write_handler}
use filling_pilot_edge_rs.S7.Crate.{S7Crate}
use filling_pilot_edge_rs.S7.Pool.{S7Manager}

module _ {s7 : S7Crate} (crates : CloudCrates s7) where
  -- One step: a connection attempt, an info for a registration or a heartbeat, a command that does not
  -- panic, the body of a loop, an answer of a monitor's local service, a read or a write over HTTP, or
  -- the end of a thread or call that loads a file at the start of the node.
  pub data Step : CloudSession s7 → CloudSession s7 → Type 0 where
    connects : (s : CloudSession s7) → Step s (connect crates s).1
    greets : (s : CloudSession s7) → s.connected ≡ true → Step s (greet crates s)
    obeys :
        (s t : CloudSession s7) (cmd : ServerCommand) (again : Bool)
        → handle_command crates cmd s ≡ some (again, t)
        → Step s t
    reports : (s : CloudSession s7) → Step s (send_reports crates s)
    tells_statuses : (s : CloudSession s7) → Step s (send_statuses crates s)
    watches_monitors : (s : CloudSession s7) → Step s (monitor_round crates s).1
    checks_plcs : (s : CloudSession s7) → Step s (plc_status_round crates s)
    calls_back :
        (s : CloudSession s7) (m : Monitor) (answer : Option String) (manager : S7Manager s7)
        → post_answered crates.deploys m answer s.meta_cache s.monitor_processor.fill_stations
            s.s7_manager
          ≡ some manager
        → Step s (record s { s7_manager = manager })
    reads_over_http :
        (s : CloudSession s7) (request : crates.json.Value)
        → Step s
            (record s { s7_manager = (read_handler crates.json crates.hex request s.s7_manager).1 })
    writes_over_http :
        (s : CloudSession s7) (request : crates.json.Value)
        → Step s (record s {
          s7_manager = (write_handler crates.json crates.hex request s.s7_manager).1;
        })
    loads_meta :
        (s : CloudSession s7) (d : crates.files.Disk)
        → Step s
            (record s { meta_cache = Meta.load_from_disk crates.json crates.files d s.meta_cache })
    loads_reports :
        (s : CloudSession s7) (d : crates.files.Disk)
        → Step s (record s {
          report_cache = record (s.report_cache) {
            caches = load_reports_from_disk crates.json crates.files d s.report_cache.caches;
          };
        })
    loads_monitors :
        (s : CloudSession s7) (d : crates.files.Disk) (p : MonitorProcessor)
        → Monitors.load_from_disk crates.json crates.files true d s.monitor_processor ≡ some p
        → Step s (record s { monitor_processor = p })

  pub data Reach : CloudSession s7 → CloudSession s7 → Type 0 where
    begins : (s : CloudSession s7) → Reach s s
    andthen : (s t u : CloudSession s7) → Reach s t → Step t u → Reach s u
