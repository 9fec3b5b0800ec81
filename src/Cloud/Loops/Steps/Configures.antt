-- ===== src/Cloud/Loops/Steps/Configures.antt =====
-- The command plcInfo keeps a session well formed.
use filling_pilot_edge_rs.Common.{
  Option, none, some, List, [], ◌∷◌, map, All, Bool-cases, inl, inr, String, str_eq,
}
use filling_pilot_edge_rs.Cloud.Types.{CloudCrates}
use filling_pilot_edge_rs.Cloud.Session.{CloudSession}
use filling_pilot_edge_rs.Cloud.Config.{
  apply_config, apply_array, apply_stations, apply_monitors, apply_fill_stations, save_meta,
  array_in, with_plcs, station_entry,
}
use filling_pilot_edge_rs.Cloud.Config.Answers.{report_plcs-Sends}
use filling_pilot_edge_rs.Cloud.Config.Applied.{monitors-update_fill_stations}
use filling_pilot_edge_rs.Cloud.Loops.Steps.WellFormed.{IsWellFormed, Sends-IsWellFormed}
use filling_pilot_edge_rs.Monitor.Config.{Monitor}
use filling_pilot_edge_rs.Monitor.Config.Keep.{update_monitors-All}
use filling_pilot_edge_rs.Monitor.Config.Parse.{
  IsConfigured, parse_monitors, parse_monitors-IsConfigured,
}
use filling_pilot_edge_rs.Report.Cache.Bounds.{operations-IsBounded}
use filling_pilot_edge_rs.Report.Cache.ColdStart.{update_fill_stations-IsCold}
use filling_pilot_edge_rs.Report.Station.{FillStation}
use filling_pilot_edge_rs.Report.Station.Parse.{parse_from_plc_info}
use filling_pilot_edge_rs.Common.Int.{pos}
use filling_pilot_edge_rs.S7.Crate.{S7Crate}
use filling_pilot_edge_rs.S7.Pool.{manager_io}
use filling_pilot_edge_rs.S7.Types.{PlcConfig}

module _ {s7 : S7Crate} (crates : CloudCrates s7) (base : CloudSession s7) where
  open crates use {json}

  abbrev Keeps : CloudSession s7 → CloudSession s7 → Type 0
  Keeps s t = IsWellFormed crates base s → IsWellFormed crates base t

  keep-stations :
      (stations : List FillStation) (s : CloudSession s7)
      → Keeps s (apply_stations crates stations s)
  unfolding apply_stations
  keep-stations [] s h = h
  keep-stations (x ∷ stations) s h = record {
    same_node = h.same_node;
    signed = h.signed;
    intervals = h.intervals;
    bounded =
        (operations-IsBounded (manager_io s7) crates.reports s.s7_manager (x ∷ stations) (pos 0)
          s.report_cache.caches h.bounded).1;
    cold = λ c. update_fill_stations-IsCold (x ∷ stations) s.report_cache.caches (h.cold c);
    configured = h.configured;
  }

  keep-monitors :
      (monitors : List Monitor) (s : CloudSession s7)
      → All IsConfigured monitors
      → Keeps s (apply_monitors crates monitors s)
  unfolding apply_monitors
  keep-monitors [] s k h = h
  keep-monitors (m ∷ monitors) s k h = record {
    same_node = h.same_node;
    signed = h.signed;
    intervals = h.intervals;
    bounded = h.bounded;
    cold = h.cold;
    configured = update_monitors-All IsConfigured (m ∷ monitors) s.monitor_processor k h.configured;
  }

  keep-fill_stations :
      (stations : List FillStation) (s : CloudSession s7)
      → Keeps s (apply_fill_stations crates stations s)
  unfolding apply_fill_stations
  keep-fill_stations stations s h = record {
    same_node = h.same_node;
    signed = h.signed;
    intervals = h.intervals;
    bounded = h.bounded;
    cold = h.cold;
    configured =
        rw (monitors-update_fill_stations (map station_entry stations) s.monitor_processor)
          h.configured;
  }

  -- Neither the manager, nor the metadata, nor the last text matter for the invariant.
  keep-array :
      (items : Option (List json.Value)) (s : CloudSession s7)
      → Keeps s (apply_array crates items s)
  unfolding apply_array save_meta
  keep-array none s h = h
  keep-array (some plc_info) s h =
      let stations = parse_from_plc_info json plc_info in
      let monitors = parse_monitors json plc_info in
      let t = apply_stations crates stations s in
      let u = apply_monitors crates monitors t in
      let k =
        keep-monitors monitors t (parse_monitors-IsConfigured json plc_info)
          (keep-stations stations s h) in
      keep-fill_stations stations (save_meta crates plc_info u) (record {
        same_node = k.same_node;
        signed = k.signed;
        intervals = k.intervals;
        bounded = k.bounded;
        cold = k.cold;
        configured = k.configured;
      })

  keep-config :
      (detail : String) (plcs : List PlcConfig) (s : CloudSession s7)
      → Keeps s (apply_config crates detail plcs s)
  unfolding apply_config
  keep-config detail plcs s h = keep-array (array_in crates detail) _ (record {
    same_node = h.same_node;
    signed = h.signed;
    intervals = h.intervals;
    bounded = h.bounded;
    cold = h.cold;
    configured = h.configured;
  })

  pub keep-plcs :
      (detail : String) (plcs : List PlcConfig) (s : CloudSession s7)
      → Keeps s (with_plcs crates detail plcs s)
  unfolding with_plcs
  keep-plcs detail [] s h = h
  keep-plcs detail (plc ∷ plcs) s h = elim (Bool-cases (str_eq s.last_plc_detail detail)) [
    | inl same ↦
        rw same (Sends-IsWellFormed crates base s _ _ (report_plcs-Sends crates (plc ∷ plcs) s) h)
    | inr other ↦ rw other (
        Sends-IsWellFormed crates base (apply_config crates detail (plc ∷ plcs) s) _ _
          (report_plcs-Sends crates (plc ∷ plcs) _) (keep-config detail (plc ∷ plcs) s h))
  ]
