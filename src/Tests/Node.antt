-- ===== src/Tests/Node.antt =====
-- The configuration, the HTTP interface, and deployments to a station.
use filling_pilot_edge_rs.Common.{
  false, take, min, length, List, ℕ, ◌≡◌, ◌↔◌, refl, String, none, some, [], ◌∷◌, All, arith,
}
use filling_pilot_edge_rs.Common.Dict.{Dict}
use filling_pilot_edge_rs.Common.Eq.{String_eq}
use filling_pilot_edge_rs.Common.Int.{pos}
use filling_pilot_edge_rs.Context.{
  Context, ContextCrates, ServerConf, default_context, default_server_conf, load,
}
use filling_pilot_edge_rs.Context.Load.{IsConfiguredBy, Merges, load_iff}
use filling_pilot_edge_rs.Deploy.Write.{DeployCrates, try_call_back, Deployment}
use filling_pilot_edge_rs.Deploy.Write.Blocked.{
  none_or, any_reaches, requested, try_call_back-blocked,
}
use filling_pilot_edge_rs.Error.{ok}
use filling_pilot_edge_rs.Http.{deploy_handler, recent_logs}
use filling_pilot_edge_rs.Http.Buffer.{push_lines, recent_logs-newest}
use filling_pilot_edge_rs.Http.Deployments.{Stores, deploy_handler-Stores}
use filling_pilot_edge_rs.Monitor.Config.Parse.{
  IsConfigured, parse_monitors, parse_monitors-IsConfigured,
}
use mathlib.Core.List.{reverse}
use filling_pilot_edge_rs.Logger.{Udp}
use filling_pilot_edge_rs.Tests.Monitor as Monitors
use filling_pilot_edge_rs.Tests.Deploy.{deploys, tank, content}
use filling_pilot_edge_rs.Tests.S7.{manager}
use filling_pilot_edge_rs.Tests.Tree.{
  Tree, text, integer, sequence, fields, cons, nil, field, no_field, tree_json, from_dict,
}

abbrev pub files : ContextCrates
files = record {
  Value = String;
  current_dir = some "/opt/pilot";
  read_to_string = λ path. ok path;
  parse_value = λ s. ok s;
  context_of = λ v. ok (record default_context { id = v });
  parse_server_conf = λ s. ok (record default_server_conf { port = 8888 });
}

abbrev node : Context
node = record default_context { id = "id.key"; port = 8888 }

load_iff_example :
    (load files ≡ ok node)
    ↔ ((n : Context) × (conf : ServerConf) × IsConfiguredBy files n conf × Merges n conf node)
load_iff_example = load_iff files node

abbrev two_lines : List String
two_lines = "a" ∷ "b" ∷ []

abbrev request : Tree
request = fields (field "dbNumber" (integer (pos 1)) (field "name" (text "Station") no_field))

deploy_handler-Stores_example :
    Stores tree_json
      (λ s. s)
      (λ e. e.message)
      request
      []
      (deploy_handler tree_json (λ s. s) (λ e. e.message) request [])
deploy_handler-Stores_example = deploy_handler-Stores tree_json (λ s. s) (λ e. e.message) request []

abbrev watched : Tree
watched = fields (
    field "ipAddress" (text "10.0.0.1") (
      field "portNumber" (integer (pos 70000)) (
        field "monitorList" (sequence (cons (fields (field "id" (text "m1") no_field)) nil))
          no_field)))

parse_monitors-IsConfigured_example : All IsConfigured (parse_monitors tree_json (watched ∷ []))
parse_monitors-IsConfigured_example = parse_monitors-IsConfigured tree_json (watched ∷ [])

abbrev deployment : Deployment Tree
deployment = record {
  fill_station_id = some "s1";
  ip = none;
  port = none;
  db_number = 9;
  offset = 2;
  length = 4;
  content_type = "Tank";
  content = fields (from_dict content);
}

abbrev stations : Dict String (String × ℕ)
stations = ("s1", ("10.0.0.1", 102)) ∷ []

configured : IsConfigured Monitors.monitor
configured = record {
  port_fits = omega arith;
  db_number_fits = omega arith;
  offset_fits = omega arith;
  block_size_fits = omega arith;
  frequency_min = omega arith;
  frequency_fits = omega arith;
  resend_fits = omega arith;
  resend_min = omega arith;
}

-- A service that asks for the deployment, on a thread that drives tasks.
abbrev blocked : DeployCrates
blocked = record deploys {
  can_block = false;
  parse_callback = λ s. some (some "pilotService/deployAll");
  parse_deployments = λ s. some (record deployment { fill_station_id = none } ∷ deployment ∷ []);
}

try_call_back-blocked_example :
    try_call_back blocked "{}" (("Tank", tank) ∷ []) stations none none manager
    ≡ none_or (any_reaches blocked stations none none (requested blocked "{}")) manager
try_call_back-blocked_example =
    try_call_back-blocked blocked "{}" (("Tank", tank) ∷ []) stations none none manager refl

recent_logs-newest_example :
    recent_logs (push_lines two_lines [])
    ≡ (take 100 (reverse two_lines), min 1000 (length two_lines))
recent_logs-newest_example = recent_logs-newest two_lines

-- A network with one host, on which a text is its first byte as an opening bracket.
abbrev udp : Udp
udp = record {
  Addr = ℕ;
  Net = List (List ℕ × ℕ);
  to_socket_addr = λ host net. (some 7, net);
  send_to = λ bytes a net. (bytes, a) ∷ net;
  bytes_of = λ s. 91 ∷ [];
  bytes_of-IsByte = λ s. (omega arith, tt);
}
