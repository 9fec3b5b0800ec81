-- ===== src/Tests/Server.antt =====
-- Requests to the HTTP interface.
use filling_pilot_edge_rs.Common.{List, [], ◌∷◌}
use filling_pilot_edge_rs.Common.Int.{pos}
use filling_pilot_edge_rs.Context.{default_context}
use filling_pilot_edge_rs.Http.Server.{
  AppState, new_state, Handler, deploy, read, write, config, serve,
}
use filling_pilot_edge_rs.Http.Server.Confined.{Confined, serve-Confined}
use filling_pilot_edge_rs.Tests.S7.{s7, hex, manager}
use filling_pilot_edge_rs.Tests.Tree.{Tree, text, integer, fields, field, no_field, tree_json}

abbrev station : Tree
station = fields (field "dbNumber" (integer (pos 1)) (field "name" (text "Station") no_field))

abbrev refused_plc : Tree
refused_plc = fields (field "ip" (text "10.0.0.9") no_field)

abbrev requests : List (Handler × Tree)
requests = (deploy, station) ∷ (read, refused_plc) ∷ (write, refused_plc) ∷ (config, station) ∷ []

abbrev started : AppState s7
started = new_state default_context manager

serve-Confined_example :
    Confined tree_json hex
      (λ s. s)
      requests
      started
      (serve tree_json hex (λ s. s) ("a" ∷ []) requests started)
serve-Confined_example = serve-Confined tree_json hex (λ s. s) ("a" ∷ []) requests started
