-- ===== src/Http.antt =====
-- The local HTTP interface (src/http.rs): the log buffer and the handlers. A handler's answer is a JSON
-- value.
pub mod Buffer
pub mod Deployments
pub mod Server
use Prim.Native.String.{◌++◌ as ◌<>◌}
use mathlib.Core.List.{reverse}
use filling_pilot_edge_rs.Common.{
  ℕ, suc, ◌+◌, ◌%◌, String, Bool, true, false, Option, none, some, List, [], ◌∷◌, ◌++◌, ltb, length,
  take, drop, unwrap_or, if◌then◌else◌,
}
use filling_pilot_edge_rs.Common.Dict
use filling_pilot_edge_rs.Common.Dict.{Dict}
use filling_pilot_edge_rs.Common.Eq.{String_eq}
use filling_pilot_edge_rs.Common.Text.{show_ℕ}
use filling_pilot_edge_rs.Codec.Property.{
  PropertyType, DataBlockProperty, DataBlockDefinition, from_lowercase, calculate_size,
}
use filling_pilot_edge_rs.Context.{Context}
use filling_pilot_edge_rs.Error.{Error, Result, ok, err, ◌>>=◌, from_text}
use filling_pilot_edge_rs.Json.{Json, null, bool, number, string, array, object}
use filling_pilot_edge_rs.Json.Members.{str_at, u64_at, array_at}
use filling_pilot_edge_rs.Processor.{HexCrate}
use filling_pilot_edge_rs.S7.Crate.{S7Crate}
use filling_pilot_edge_rs.S7.Pool.{S7Manager, key_of, read_bytes, write_bytes}

-- `add_log`, at a time as a text; the buffer keeps its last thousand lines
abbrev pub log_line : String → String → String
log_line timestamp message = "[" <> (timestamp <> ("] " <> message))

unfoldable pub push_line : String → List String → List String
push_line line logs =
    let pushed = logs ++ (line ∷ []) in if ltb 1000 (length pushed) then drop 1 pushed else pushed

unfoldable pub add_log : String → String → List String → List String
unfolding push_line
add_log timestamp message logs = push_line (log_line timestamp message) logs

-- The lines that `/log` answers with, and the number of all.
unfoldable pub recent_logs : List String → List String × ℕ
recent_logs logs = (take 100 (reverse logs), length logs)

abbrev pub ok_or : {A : Type 0} → String → Option A → Result A Error
ok_or message none = err (from_text message)
ok_or message (some a) = ok a

-- `DeploymentResponse`
pub record DeploymentResponse : Type 0 where
  pub success : Bool
  pub message : Option String

abbrev pub deployed :
    (Error → String)
    → Result DataBlockDefinition Error
    → Dict String DataBlockDefinition
    → DeploymentResponse × Dict String DataBlockDefinition
deployed error_text (ok def) deployments =
    (record { success = true; message = none }, Dict.insert def.name def deployments)
deployed error_text (err e) deployments =
    (record { success = false; message = some (error_text e) }, deployments)

module _ (json : Json) (to_lowercase : String → String) where
  open json use {Value}

  -- A property of a deployment, at an index.
  unfoldable pub parse_property : ℕ → Value → Result DataBlockProperty Error
  unfolding from_lowercase
  parse_property i prop = do
    name ← ok_or ("Missing name at index " <> show_ℕ i) (str_at json "name" prop)
    ok (record {
      name = name;
      property_type = from_lowercase (to_lowercase (unwrap_or (str_at json "type" prop) "byte"));
      offset = unwrap_or (u64_at json "offset" prop) 0;
      count = unwrap_or (u64_at json "count" prop) 1;
      byte_size = none;
    })

  unfoldable pub parse_properties : ℕ → List Value → Result (List DataBlockProperty) Error
  unfolding parse_property
  parse_properties i [] = ok []
  parse_properties i (prop ∷ props) = do
    p ← parse_property i prop
    rest ← parse_properties (suc i) props
    ok (p ∷ rest)

  unfoldable pub parse_deployment : Value → Result DataBlockDefinition Error
  unfolding parse_properties calculate_size
  parse_deployment deployment = do
    db_number ← ok_or "Missing dbNumber" (u64_at json "dbNumber" deployment)
    name ← ok_or "Missing name" (str_at json "name" deployment)
    properties ← parse_properties 0 (unwrap_or (array_at json "properties" deployment) [])
    ok (
        calculate_size (record {
          db_number = db_number % 65536;
          name = name;
          plc_ip = str_at json "plcIp" deployment;
          properties = properties;
          total_size = 0;
        }))

  unfoldable pub deploy_handler :
      (Error → String)
      → Value
      → Dict String DataBlockDefinition
      → DeploymentResponse × Dict String DataBlockDefinition
  unfolding parse_deployment
  deploy_handler error_text deployment deployments =
      deployed error_text (parse_deployment deployment) deployments

module _ (json : Json) (hex : HexCrate) where
  open json use {Value, make}

  abbrev text_value : String → Value
  text_value s = make (string s)

  abbrev number_value : ℕ → Value
  number_value n = make (number (json.from_u64 n))

  abbrev pub failure : String → Value
  failure e = make (object (("success", make (bool false)) ∷ ("error", text_value e) ∷ []))

  abbrev pub read_answer : Result (List ℕ) Error → Value
  read_answer (ok bytes) = make (
      object (
        ("success", make (bool true))
        ∷ ("hex", text_value (hex.encode bytes))
        ∷ ("bytes", number_value (length bytes))
        ∷ []))
  read_answer (err e) = failure (hex.error_text e)

  unfoldable pub read_handler : {s7 : S7Crate} → Value → S7Manager s7 → Value × S7Manager s7
  read_handler request p =
      let (result, p') =
        read_bytes (unwrap_or (str_at json "ip" request) "127.0.0.1")
          (unwrap_or (u64_at json "port" request) 102 % 65536)
          (unwrap_or (u64_at json "db" request) 1 % 65536)
          (unwrap_or (u64_at json "offset" request) 0 % 65536)
          (unwrap_or (u64_at json "size" request) 10 % 65536) p in
      (read_answer result, p')

  abbrev pub write_answer : ℕ → Result (Unit {0}) Error → Value
  write_answer n (ok done) =
      make (object (("success", make (bool true)) ∷ ("bytes", number_value n) ∷ []))
  write_answer n (err e) = failure (hex.error_text e)

  unfoldable pub write_decoded :
      {s7 : S7Crate} → Value → Result (List ℕ) String → S7Manager s7 → Value × S7Manager s7
  write_decoded request (err e) p = (failure ("Invalid hex: " <> e), p)
  write_decoded request (ok bytes) p =
      let (result, p') =
        write_bytes (unwrap_or (str_at json "ip" request) "127.0.0.1")
          (unwrap_or (u64_at json "port" request) 102 % 65536)
          (unwrap_or (u64_at json "db" request) 1 % 65536)
          (unwrap_or (u64_at json "offset" request) 0 % 65536) bytes p in
      (write_answer (length bytes) result, p')

  unfoldable pub write_handler : {s7 : S7Crate} → Value → S7Manager s7 → Value × S7Manager s7
  unfolding write_decoded
  write_handler request p =
      write_decoded request (hex.decode (unwrap_or (str_at json "hex" request) "")) p

  unfoldable pub status_handler : Context → Value
  status_handler ctx = make (
      object (
        ("id", text_value ctx.id)
        ∷ ("server", text_value (key_of ctx.server_address ctx.port))
        ∷ ("version", text_value ctx.version)
        ∷ ("localPort", number_value ctx.local_port)
        ∷ []))

  abbrev optional_value : Option String → Value
  optional_value none = make null
  optional_value (some s) = text_value s

  unfoldable pub config_handler : Context → Value
  config_handler ctx = make (
      object (
        ("serverAddress", text_value ctx.server_address)
        ∷ ("port", number_value ctx.port)
        ∷ ("upgradeUrl", optional_value ctx.upgrade_url)
        ∷ ("serverConfUrl", optional_value ctx.server_conf_url)
        ∷ ("version", text_value ctx.version)
        ∷ ("id", text_value ctx.id)
        ∷ ("privateKey", optional_value ctx.private_key)
        ∷ ("heartBeat", number_value ctx.heart_beat)
        ∷ ("reportInterval", number_value ctx.report_interval)
        ∷ ("statusInterval", number_value ctx.status_interval)
        ∷ ("localPort", number_value ctx.local_port)
        ∷ []))
