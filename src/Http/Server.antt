-- ===== src/Http/Server.antt =====
-- The server of the local HTTP interface (start_server in src/http.rs): the state that its handlers
-- share, and what each route does.
pub mod Confined
use filling_pilot_edge_rs.Common.{String, Option, none, List, [], ◌∷◌, map}
use filling_pilot_edge_rs.Common.Dict.{Dict}
use filling_pilot_edge_rs.Codec.Property.{DataBlockDefinition}
use filling_pilot_edge_rs.Context.{Context}
use filling_pilot_edge_rs.Http.{
  DeploymentResponse, deploy_handler, read_handler, write_handler, status_handler, config_handler,
  recent_logs,
}
use filling_pilot_edge_rs.Json.{Json, number, string, array, object}
use filling_pilot_edge_rs.Processor.{HexCrate}
use filling_pilot_edge_rs.S7.Crate.{S7Crate}
use filling_pilot_edge_rs.S7.Pool.{S7Manager}

-- `AppState`
pub record AppState (s7 : S7Crate) : Type 0 where
  pub context : Context
  pub s7_manager : S7Manager s7
  pub deployments : Dict String DataBlockDefinition

-- The state that `start_server` begins with.
unfoldable pub new_state : {s7 : S7Crate} → Context → S7Manager s7 → AppState s7
new_state ctx p = record { context = ctx; s7_manager = p; deployments = [] }

pub data Method : Type 0 where
  get : Method
  post : Method

pub data Handler : Type 0 where
  index : Handler
  deploy : Handler
  status : Handler
  read : Handler
  write : Handler
  health : Handler
  config : Handler
  log : Handler
  version : Handler

-- Where `start_server` registers a handler.
unfoldable pub route : Handler → Method × String
route index = (get, "/")
route deploy = (post, "/deploy")
route status = (get, "/status")
route read = (post, "/read")
route write = (post, "/write")
route health = (get, "/health")
route config = (get, "/config")
route log = (get, "/log")
route version = (get, "/version")

-- What a handler answers with; the page of `/` is left out.
pub data Answer (Value : Type 0) : Type 0 where
  page : Answer Value
  plain : String → Answer Value
  deployment : DeploymentResponse → Answer Value
  json_value : Value → Answer Value

module _ (json : Json) where
  open json use {Value, make}

  unfoldable pub log_handler : List String → Value
  unfolding recent_logs
  log_handler logs =
      let (recent, total) = recent_logs logs in
      make (
        object (
          ("logs", make (array (map (λ line. make (string line)) recent)))
          ∷ ("total", make (number (json.from_u64 total)))
          ∷ []))

  -- The values are those of the package in Cargo.toml.
  abbrev pub version_handler : Value
  version_handler = make (
      object (
        ("version", make (string "0.1.0"))
        ∷ ("name", make (string "filling-pilot-edge"))
        ∷ (
          "description",
          make
              (string "Filling Pilot Edge - Industrial IoT Edge Computing for PLC Data Collection"),
        )
        ∷ []))

module _ (json : Json) (hex : HexCrate) (to_lowercase : String → String) where
  open json use {Value}

  -- A request that reached a handler, with the body that axum parsed, while the log buffer has the lines
  -- `logs`. Handlers that take no body ignore it.
  unfoldable pub handle :
      {s7 : S7Crate} → List String → Handler → Value → AppState s7 → Answer Value × AppState s7
  unfolding deploy_handler read_handler write_handler status_handler config_handler log_handler
  handle logs index body s = (page, s)
  handle logs deploy body s =
      let (response, after) = deploy_handler json to_lowercase hex.error_text body s.deployments in
      (deployment response, record s { deployments = after })
  handle logs status body s = (json_value (status_handler json hex s.context), s)
  handle logs read body s =
      let (answer, p) = read_handler json hex body s.s7_manager in
      (json_value answer, record s { s7_manager = p })
  handle logs write body s =
      let (answer, p) = write_handler json hex body s.s7_manager in
      (json_value answer, record s { s7_manager = p })
  handle logs health body s = (plain "OK", s)
  handle logs config body s = (json_value (config_handler json hex s.context), s)
  handle logs log body s = (json_value (log_handler json logs), s)
  handle logs version body s = (json_value (version_handler json), s)

  -- The requests, in the order in which they take the locks of the state.
  unfoldable pub serve :
      {s7 : S7Crate} → List String → List (Handler × Value) → AppState s7 → AppState s7
  unfolding handle
  serve logs [] s = s
  serve logs ((handler, body) ∷ requests) s = serve logs requests (handle logs handler body s).1
