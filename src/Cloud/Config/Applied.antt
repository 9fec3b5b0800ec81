-- ===== src/Cloud/Config/Applied.antt =====
-- What a new configuration sets.
use filling_pilot_edge_rs.Common.{
  ◌≡◌, refl, ap, ◌∙◌, String, Option, none, some, List, [], ◌∷◌, map, if◌then◌else◌, is_empty,
  unwrap_or, ℕ,
}
use filling_pilot_edge_rs.Common.Dict
use filling_pilot_edge_rs.Common.Dict.{contains}
use filling_pilot_edge_rs.Common.Eq.{String_eq}
use filling_pilot_edge_rs.Cloud.Types.{CloudCrates}
use filling_pilot_edge_rs.Cloud.Session.{CloudSession}
use filling_pilot_edge_rs.Cloud.Config.{
  array_in, apply_config, apply_array, apply_stations, apply_monitors, apply_fill_stations,
  save_meta, station_entry,
}
use filling_pilot_edge_rs.Monitor.Config.{Monitor, Monitor_eq, MonitorProcessor}
use filling_pilot_edge_rs.Monitor.Config as Monitors
use filling_pilot_edge_rs.Monitor.Config.Parse.{parse_monitors}
use filling_pilot_edge_rs.Monitor.Config.Update.{update_monitors_lem}
use filling_pilot_edge_rs.Report.Cache.Stations.{get-update_fill_stations}
use filling_pilot_edge_rs.Report.Station.{FillStation, FillStation_eq}
use filling_pilot_edge_rs.Report.Station.Parse.{parse_from_plc_info}
use filling_pilot_edge_rs.S7.Crate.{S7Crate}
use filling_pilot_edge_rs.S7.Pool.{S7Manager, create_connections, update_plc_list}
use filling_pilot_edge_rs.S7.Types.{PlcConfig}

pub monitors-update_fill_stations :
    (l : List (String × String × ℕ)) (p : MonitorProcessor)
    → (Monitors.update_fill_stations l p).monitors ≡ p.monitors
unfolding Monitors.update_fill_stations
monitors-update_fill_stations [] p = refl
monitors-update_fill_stations ((id, ip, port) ∷ l) p =
    monitors-update_fill_stations l
      (record p { fill_stations = Dict.insert id (ip, port) p.fill_stations })

module _ {s7 : S7Crate} where
  plc_list-create_connections :
      (plcs : List PlcConfig) (p : S7Manager s7) → (create_connections plcs p).plc_list ≡ p.plc_list
  unfolding create_connections
  plc_list-create_connections [] p = refl
  plc_list-create_connections (plc ∷ plcs) p = plc_list-create_connections plcs _

module _ {s7 : S7Crate} (crates : CloudCrates s7) where
  open crates use {json}

  -- The reports of a station: those it had, if the configuration has the station or has none at all.
  abbrev pub HasStations :
      List FillStation → CloudSession s7 → CloudSession s7 → FillStation → Type 0
  HasStations stations s t station = Dict.get station t.report_cache.caches ≡ (
      if is_empty stations
      then Dict.get station s.report_cache.caches
      else if contains station stations
      then some (unwrap_or (Dict.get station s.report_cache.caches) [])
      else none)

  abbrev pub HasMonitors : List Monitor → CloudSession s7 → CloudSession s7 → Monitor → Type 0
  HasMonitors monitors s t m =
      contains m t.monitor_processor.monitors
      ≡ (if is_empty monitors then contains m s.monitor_processor.monitors else contains m monitors)

  stations-apply_stations :
      (stations : List FillStation) (s : CloudSession s7) (station : FillStation)
      → HasStations stations s (apply_stations crates stations s) station
  unfolding apply_stations
  stations-apply_stations [] s station = refl
  stations-apply_stations (x ∷ stations) s station =
      get-update_fill_stations station (x ∷ stations) s.report_cache.caches

  monitors-apply_monitors :
      (monitors : List Monitor) (s : CloudSession s7) (m : Monitor)
      → HasMonitors monitors s (apply_monitors crates monitors s) m
  unfolding apply_monitors
  monitors-apply_monitors [] s m = refl
  monitors-apply_monitors (x ∷ monitors) s m =
      (update_monitors_lem (x ∷ monitors) s.monitor_processor m "").0

  pub apply_monitors-eq :
      (monitors : List Monitor) (s : CloudSession s7)
      → apply_monitors crates monitors s
        ≡ record s { monitor_processor = (apply_monitors crates monitors s).monitor_processor }
  unfolding apply_monitors
  apply_monitors-eq [] s = refl
  apply_monitors-eq (x ∷ monitors) s = refl

  pub apply_stations-eq :
      (stations : List FillStation) (s : CloudSession s7)
      → apply_stations crates stations s
        ≡ record s { report_cache = (apply_stations crates stations s).report_cache }
  unfolding apply_stations
  apply_stations-eq [] s = refl
  apply_stations-eq (x ∷ stations) s = refl

  -- The stations and the monitors of a configuration that is an array.
  apply_array-sets :
      (plc_info : List json.Value) (s : CloudSession s7) (station : FillStation) (m : Monitor)
      → HasStations
          (parse_from_plc_info json plc_info)
          s
          (apply_array crates (some plc_info) s)
          station
        × HasMonitors (parse_monitors json plc_info) s (apply_array crates (some plc_info) s) m
  unfolding apply_array apply_fill_stations save_meta
  apply_array-sets plc_info s station m =
      let stations = parse_from_plc_info json plc_info in
      let monitors = parse_monitors json plc_info in
      let t = apply_stations crates stations s in
      (
        rw (ap (λ t'. t'.report_cache) (apply_monitors-eq monitors t))
            (stations-apply_stations stations s station),
        rw
            (monitors-update_fill_stations (map station_entry stations)
              (apply_monitors crates monitors t).monitor_processor)
            (monitors-apply_monitors monitors t m
              ∙ ap (λ p. if is_empty monitors then contains m p.monitors else contains m monitors)
                  (ap (λ t'. t'.monitor_processor) (apply_stations-eq stations s))),
      )

  kept-apply_array :
      (items : Option (List json.Value)) (s : CloudSession s7)
      → ((apply_array crates items s).last_plc_detail ≡ s.last_plc_detail)
        × ((apply_array crates items s).s7_manager ≡ s.s7_manager)
  unfolding apply_array apply_fill_stations save_meta
  kept-apply_array none s = (refl, refl)
  kept-apply_array (some plc_info) s =
      let monitors = apply_monitors-eq (parse_monitors json plc_info) _ in
      let stations = apply_stations-eq (parse_from_plc_info json plc_info) s in
      (
        ap (λ t. t.last_plc_detail) monitors ∙ ap (λ t. t.last_plc_detail) stations,
        ap (λ t. t.s7_manager) monitors ∙ ap (λ t. t.s7_manager) stations,
      )

  -- A new configuration becomes the last one, and its PLCs those of the manager. If it names stations,
  -- the cache has exactly those, and they keep their reports; if it names monitors, exactly those are
  -- active. If it names none, the old ones stay.
  pub apply_config-sets :
      (detail : String) (plcs : List PlcConfig) (plc_info : List json.Value) (s : CloudSession s7)
      (station : FillStation) (m : Monitor)
      → array_in crates detail ≡ some plc_info
      → ((apply_config crates detail plcs s).last_plc_detail ≡ detail)
        × ((apply_config crates detail plcs s).s7_manager.plc_list ≡ plcs)
        × HasStations
            (parse_from_plc_info json plc_info)
            s
            (apply_config crates detail plcs s)
            station
        × HasMonitors (parse_monitors json plc_info) s (apply_config crates detail plcs s) m
  unfolding apply_config update_plc_list
  apply_config-sets detail plcs plc_info s station m h =
      let base = record s {
        last_plc_detail = detail;
        s7_manager = update_plc_list plcs s.s7_manager;
      } in
      let (kept_detail, kept_manager) = kept-apply_array (array_in crates detail) base in
      let (stations, monitors) = apply_array-sets plc_info base station m in
      (
        kept_detail,
        ap (λ p. p.plc_list) kept_manager ∙ plc_list-create_connections plcs _,
        rw h stations,
        rw h monitors,
      )
