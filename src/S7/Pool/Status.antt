-- ===== src/S7/Pool/Status.antt =====
-- What the manager reports of its PLCs.
use filling_pilot_edge_rs.Common.{
  ℕ, ◌≡◌, refl, ap, ◌∙◌, String, Bool, true, false, Option, none, List, [], ◌∷◌, map, is_none,
}
use filling_pilot_edge_rs.Common.Dict
use filling_pilot_edge_rs.Common.Dict.{Dict}
use filling_pilot_edge_rs.Common.Eq.{String_eq}
use filling_pilot_edge_rs.Error.{Error}
use filling_pilot_edge_rs.S7.Crate.{S7Crate}
use filling_pilot_edge_rs.S7.Types.{PlcConfig, PlcConnectionStatus}
use filling_pilot_edge_rs.S7.Pool.{
  S7Manager, test_connection, check_connections, check_all_connections,
}
use filling_pilot_edge_rs.S7.Pool.Isolation.{operations-OnlyChange}

abbrev pub address : PlcConfig → String × ℕ
address plc = (plc.ip, plc.port)

abbrev pub status_address : PlcConnectionStatus → String × ℕ
status_address s = (s.host, s.port)

module _ {s7 : S7Crate} where
  open s7 use {World, Connection}

  -- A PLC that is reported as connected has a latency and a pooled connection; one that is not has
  -- neither.
  abbrev pub IsReported : String → (Bool × Option ℕ) × S7Manager s7 → Type 0
  IsReported key ((true, latency), p) =
      (is_none latency ≡ false) × (is_none (Dict.get key p.connections) ≡ false)
  IsReported key ((false, latency), p) = (latency ≡ none) × (Dict.get key p.connections ≡ none)

  check_connections-addresses :
      (plcs : List PlcConfig) (p : S7Manager s7)
      → (map status_address (check_connections plcs p).0 ≡ map address plcs)
        × ((check_connections plcs p).1.plc_list ≡ p.plc_list)
  unfolding check_connections
  check_connections-addresses [] p = (refl, refl)
  check_connections-addresses (plc ∷ plcs) p =
      let tested = test_connection plc.ip plc.port p in
      let rest = check_connections-addresses plcs tested.1 in
      let kept = (operations-OnlyChange plc.ip plc.port 0 0 0 [] p).2.1 in
      (ap (◌∷◌ (address plc)) rest.0, rest.1 ∙ kept)

  -- A check of all PLCs has one status for each configured PLC, in order, and keeps the configuration.
  pub check_all_connections-addresses :
      (p : S7Manager s7)
      → (map status_address (check_all_connections p).0 ≡ map address p.plc_list)
        × ((check_all_connections p).1.plc_list ≡ p.plc_list)
  unfolding check_all_connections
  check_all_connections-addresses p = check_connections-addresses p.plc_list p
