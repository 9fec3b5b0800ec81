-- ===== src/Cloud/Config.antt =====
-- The command plcInfo: a configuration is applied when its text is new, and every PLC of it is tested and
-- reported each time.
pub mod Answers
pub mod Applied
use filling_pilot_edge_rs.Common.{
  ℕ, ◌%◌, String, Bool, true, false, Option, none, some, List, [], ◌∷◌, ◌++◌, map, str_eq,
  if◌then◌else◌, is_empty, unwrap_or,
}
use filling_pilot_edge_rs.Common.Maybe.{◌>>=◌}
use filling_pilot_edge_rs.Json.Members.{str_at, u64_at, items_of, array_at}
use filling_pilot_edge_rs.Cloud.Types.{CloudCrates, ServerCommand}
use filling_pilot_edge_rs.Cloud.Session.{CloudSession, test_plcs, send_plc_response}
use filling_pilot_edge_rs.Deploy.Disk.{definition_of}
use filling_pilot_edge_rs.Deploy.Meta.{MetaDefinition, save_definitions}
use filling_pilot_edge_rs.Monitor.Config.{Monitor, update_monitors}
use filling_pilot_edge_rs.Monitor.Config as Monitors
use filling_pilot_edge_rs.Monitor.Config.Parse.{parse_monitors}
use filling_pilot_edge_rs.Report.Cache as Cache
use filling_pilot_edge_rs.Report.Station.{FillStation}
use filling_pilot_edge_rs.Report.Station.Parse.{push_parsed, parse_from_plc_info}
use filling_pilot_edge_rs.S7.Crate.{S7Crate}
use filling_pilot_edge_rs.S7.Pool.{update_plc_list}
use filling_pilot_edge_rs.S7.Types.{PlcConfig}

-- The triples that the processor keeps for callbacks.
abbrev pub station_entry : FillStation → String × String × ℕ
station_entry s = (s.id, s.ip, s.port)

module _ {s7 : S7Crate} (crates : CloudCrates s7) where
  open crates use {json}
  open json use {Value, view}

  unfoldable pub parse_plc : Value → Option PlcConfig
  parse_plc item = do
    id ← str_at json "id" item
    ip ← str_at json "ipAddress" item
    port ← u64_at json "portNumber" item
    some (record { id = id; ip = ip; port = port % 65536 })

  unfoldable pub parse_plcs : List Value → List PlcConfig
  unfolding parse_plc
  parse_plcs [] = []
  parse_plcs (item ∷ items) = push_parsed (parse_plc item) (parse_plcs items)

  -- `serde_json::from_str(detail)` and `json.as_array()`
  unfoldable pub array_in : String → Option (List Value)
  array_in detail = do value ← crates.parse_json detail; items_of (view value)

  unfoldable pub parse_plc_list : String → List PlcConfig
  unfolding parse_plcs
  parse_plc_list detail = parse_plcs (unwrap_or (array_in detail) [])

  -- The definitions under `dataMeta` that can be parsed.
  unfoldable pub parse_definitions : List Value → List MetaDefinition
  unfolding definition_of
  parse_definitions [] = []
  parse_definitions (item ∷ items) = push_parsed (definition_of json item) (parse_definitions items)

  unfoldable pub definitions_in : List Value → List MetaDefinition
  unfolding parse_definitions
  definitions_in [] = []
  definitions_in (plc ∷ plc_info) =
      parse_definitions (unwrap_or (array_at json "dataMeta" plc) []) ++ definitions_in plc_info

  -- `save_meta`; without definitions it returns at once
  unfoldable pub save_meta : List Value → CloudSession s7 → CloudSession s7
  unfolding definitions_in save_definitions
  save_meta plc_info s = record s {
    meta_cache = save_definitions (definitions_in plc_info) s.meta_cache;
  }

  -- An empty list leaves the stations as they are, and so for the monitors.
  unfoldable pub apply_stations : List FillStation → CloudSession s7 → CloudSession s7
  apply_stations [] s = s
  apply_stations (x ∷ stations) s = record s {
    report_cache = record (s.report_cache) {
      caches = Cache.update_fill_stations (x ∷ stations) s.report_cache.caches;
    };
  }

  unfoldable pub apply_monitors : List Monitor → CloudSession s7 → CloudSession s7
  unfolding update_monitors
  apply_monitors [] s = s
  apply_monitors (m ∷ monitors) s = record s {
    monitor_processor = update_monitors (m ∷ monitors) s.monitor_processor;
  }

  unfoldable pub apply_fill_stations : List FillStation → CloudSession s7 → CloudSession s7
  apply_fill_stations stations s = record s {
    monitor_processor =
        Monitors.update_fill_stations (map station_entry stations) s.monitor_processor;
  }

  unfoldable pub apply_array : Option (List Value) → CloudSession s7 → CloudSession s7
  unfolding apply_stations apply_monitors apply_fill_stations save_meta
  apply_array none s = s
  apply_array (some plc_info) s =
      let stations = parse_from_plc_info json plc_info in
      let with_stations = apply_stations stations s in
      let with_monitors = apply_monitors (parse_monitors json plc_info) with_stations in
      apply_fill_stations stations (save_meta plc_info with_monitors)

  -- The branch `if config_changed`.
  unfoldable pub apply_config : String → List PlcConfig → CloudSession s7 → CloudSession s7
  unfolding apply_array
  apply_config detail plcs s =
      apply_array (array_in detail)
        (record s { last_plc_detail = detail; s7_manager = update_plc_list plcs s.s7_manager })

  -- The tests of the PLCs, and the last response.
  unfoldable pub report_plcs : List PlcConfig → CloudSession s7 → CloudSession s7
  unfolding test_plcs send_plc_response
  report_plcs plcs s = send_plc_response crates "plcInfo" "plcInfo" "ok" (test_plcs crates plcs s).1

  unfoldable pub with_plcs : String → List PlcConfig → CloudSession s7 → CloudSession s7
  unfolding apply_config report_plcs
  with_plcs detail [] s = s
  with_plcs detail (plc ∷ plcs) s =
      report_plcs (plc ∷ plcs)
        (if str_eq s.last_plc_detail detail then s else apply_config detail (plc ∷ plcs) s)

  unfoldable pub handle_plc_info : String → CloudSession s7 → CloudSession s7
  unfolding with_plcs parse_plc_list
  handle_plc_info detail s = with_plcs detail (parse_plc_list detail) s
