-- ===== src/Tests/Restart.antt =====
-- A node with a monitor that is started again, and what its files give.
use filling_pilot_edge_rs.Common.{◌≡◌, refl, String, false, none, some, [], ◌∷◌, arith}
use filling_pilot_edge_rs.Common.Dict
use filling_pilot_edge_rs.Common.Dict.{Dict}
use filling_pilot_edge_rs.Common.Eq.{String_eq}
use filling_pilot_edge_rs.Common.Int.{pos}
use filling_pilot_edge_rs.Cloud.Command.{handle_command, run_command, command_of}
use filling_pilot_edge_rs.Cloud.Config.{array_in, handle_plc_info}
use filling_pilot_edge_rs.Json.Members.{str_at, u64_at, array_at}
use filling_pilot_edge_rs.Monitor.Config as Configs
use filling_pilot_edge_rs.Monitor.Config.Parse.{parse_monitors}
use filling_pilot_edge_rs.Report.Station.Parse.{parse_from_plc_info}
use filling_pilot_edge_rs.Cloud.Loops.Steps.{begins, andthen, obeys}
use filling_pilot_edge_rs.Cloud.Session.{CloudSession, new, connect}
use filling_pilot_edge_rs.Cloud.Types.{CloudCrates, ServerCommand}
use filling_pilot_edge_rs.Context.{Loaded, load_with_paths}
use filling_pilot_edge_rs.Error.{ok}
use filling_pilot_edge_rs.Files.{Files, load_text}
use filling_pilot_edge_rs.Json.{array, object}
use filling_pilot_edge_rs.Json.Derive.{of_list}
use filling_pilot_edge_rs.Monitor.Config.{Monitor}
use filling_pilot_edge_rs.Monitor.Disk as Monitors
use filling_pilot_edge_rs.Monitor.Disk.Restart.{CanPersist}
use filling_pilot_edge_rs.Deploy.Disk as Meta
use filling_pilot_edge_rs.Deploy.Disk.{cache_fields, persist_to_disk}
use filling_pilot_edge_rs.Deploy.Disk.Restart.{load_from_disk-persist_to_disk}
use filling_pilot_edge_rs.Deploy.Meta.{MetaDefinition}
use filling_pilot_edge_rs.Report.PlcReport
use filling_pilot_edge_rs.Report.Disk.{load_reports_from_disk, report_of, report_value}
use filling_pilot_edge_rs.Report.Disk.Lost.{
  load_reports_from_disk-same, report_of-report_value, with_sent,
}
use filling_pilot_edge_rs.Tests.Deploy.{tank}
use filling_pilot_edge_rs.Startup.{panics, runs, new_manager, start}
use filling_pilot_edge_rs.Startup.Restart.{restart-panics}
use filling_pilot_edge_rs.Tests.Cloud as Clouds
use filling_pilot_edge_rs.Tests.Disk.{files_of}
use filling_pilot_edge_rs.Tests.Node.{files as config_files}
use filling_pilot_edge_rs.Tests.S7.{s7}
use filling_pilot_edge_rs.Tests.Tree.{
  Tree, text, integer, sequence, fields, cons, nil, field, no_field, tree_json,
}

-- A PLC with a monitor, as the cloud describes it, and the monitor that comes of it.
abbrev plc_tree : Tree
plc_tree = fields (
    field "id" (text "p1") (
      field "ipAddress" (text "10.0.0.1") (
        field "portNumber" (integer (pos 102)) (
          field "monitorList" (sequence (cons (fields (field "id" (text "m1") no_field)) nil))
            no_field))))

abbrev monitor : Monitor
monitor = record {
  id = "m1";
  merchant_id = "";
  ip = "10.0.0.1";
  port = 102;
  name = "";
  code = "";
  db_number = 0;
  offset = 0;
  block_size = 0;
  monitor_type = "";
  frequency = 50;
  resend_interval = 1000;
  forward_address = "";
  local_address = "";
}

abbrev crates : CloudCrates s7
crates = record Clouds.crates {
  files = files_of (
      tree_json.make (array (of_list tree_json (Monitors.monitor_value tree_json) (monitor ∷ []))));
  parse_json = λ s. some (sequence (cons plc_tree nil));
}

abbrev loaded : Loaded
loaded = record {
  context = record Clouds.node { id = "id.key"; private_key = none; port = 8888 };
  cwd = "/opt/pilot";
  id_path = "/opt/pilot/id";
  server_conf_path = "/opt/pilot/serverConf";
  id_content = "id.key";
  server_conf_content = "server.conf";
}

is_loaded : load_with_paths config_files ≡ ok loaded
unfolding load_with_paths
is_loaded = refl

abbrev linked : CloudSession s7
linked = (connect crates (new crates loaded.context (new_manager 5) [])).1

abbrev running : CloudSession s7
running = record linked { monitor_processor = Monitors.new }

abbrev command : ServerCommand
command = record { command_type = "plcInfo"; detail = "[plc]" }

abbrev told : CloudSession s7
told = handle_plc_info crates "[plc]" running

obeyed : handle_command crates command running ≡ some (false, told)
unfolding handle_command command_of run_command
obeyed = refl

starts : start crates config_files [] 5 ≡ runs running
unfolding start load_with_paths Monitors.load_from_disk Monitors.load_monitors load_text Dict.get
    connect new
starts = refl

has_monitor : told.monitor_processor.monitors ≡ monitor ∷ []
unfolding handle_plc_info array_in str_at Dict.get u64_at connect new parse_monitors array_at
    parse_from_plc_info Configs.update_fill_stations Configs.monitor_set Configs.insert_monitor
has_monitor = refl

persists : CanPersist tree_json crates.files (monitor ∷ []) []
persists = record { text = "json"; printed = refl; parsed = refl; succeeds = refl }

restart-panics_example :
    start crates config_files
      (Monitors.persistence_round tree_json crates.files told.monitor_processor [])
      9
    ≡ panics
restart-panics_example =
    restart-panics crates config_files loaded is_loaded [] [] 5 9 running told monitor []
      (omega arith, omega arith, omega arith) starts
      (andthen running running told (begins running) (obeys running told command false obeyed))
      has_monitor persists

-- A definition that is kept in the file of the metadata.
abbrev kept : Dict String MetaDefinition
kept = ("Tank", tank) ∷ []

abbrev meta_files : Files Tree
meta_files = files_of (tree_json.make (object (cache_fields tree_json kept)))

load_from_disk-persist_to_disk_example :
    Meta.load_from_disk tree_json meta_files (persist_to_disk tree_json meta_files kept []) []
    ≡ kept
load_from_disk-persist_to_disk_example =
    load_from_disk-persist_to_disk tree_json meta_files ("Tank", tank) [] [] []
      (
        (
          omega arith,
          (
            record {
              offset_fits = omega arith;
              count_fits = omega arith;
              byte_size_fits = omega arith;
            },
            tt,
          ),
        ),
        tt,
      )
      (record { text = "json"; printed = refl; parsed = refl; succeeds = refl })

load_reports_from_disk-same_example :
    load_reports_from_disk tree_json meta_files (("/root/.edge/reports.json", "json") ∷ []) [] ≡ []
load_reports_from_disk-same_example =
    load_reports_from_disk-same tree_json meta_files (("/root/.edge/reports.json", "json") ∷ []) []

report_of-report_value_example :
    (report_of tree_json (report_value tree_json PlcReport.new) ≡ none)
    × (report_of tree_json (tree_json.make (object (with_sent tree_json PlcReport.new)))
        ≡ some PlcReport.new)
report_of-report_value_example = report_of-report_value tree_json PlcReport.new (record {
  report_id_fits = omega arith;
  task_id_fits = omega arith;
  start_time_fits = omega arith;
  end_time_fits = omega arith;
  port_fits = omega arith;
  db_index_fits = omega arith;
})
