-- ===== src/Cloud/Types.antt =====
-- The messages of the protocol, and what the session uses of other crates and of the network.
use filling_pilot_edge_rs.Common.{some, ◌<◌, ◌≡◌, ℕ, String, Bool, Option, List}
use filling_pilot_edge_rs.Common.Int.{ℤ}
use filling_pilot_edge_rs.Error.{Result}
use filling_pilot_edge_rs.Files.{Files}
use filling_pilot_edge_rs.Json.{Json}
use filling_pilot_edge_rs.Context.{ServerConf}
use filling_pilot_edge_rs.Deploy.Write.{DeployCrates}
use filling_pilot_edge_rs.Monitor.Turn as Turn
use filling_pilot_edge_rs.Processor.{HexCrate}
use filling_pilot_edge_rs.Report.Crates as Reports
use filling_pilot_edge_rs.S7.Crate.{S7Crate}
use filling_pilot_edge_rs.S7.Types.{
  ReadRequest, ReadResponse, WriteRequest, WriteResponse, PlcConnectionStatus,
}

pub record EcnInfo : Type 0 where
  pub id : String
  pub random_number : ℤ
  pub sign : String

pub record PlcResponse : Type 0 where
  pub id : String
  pub message_type : String
  pub plc_id : String
  pub random_number : ℤ
  pub sign : String
  pub message : String

pub record ServerCommand : Type 0 where
  pub command_type : String
  pub detail : String

pub record CloudCrates (s7 : S7Crate) : Type 1 where
  pub json : Json
  pub files : Files json.Value
  pub hex : HexCrate
  pub reports : Reports.Crates
  pub monitors : Turn.Crates
  pub deploys : DeployCrates
  -- `serde_json::from_str` and `from_value` of the types that the session reads
  pub parse_json : String → Option json.Value
  pub parse_read : String → Option ReadRequest
  pub parse_write : String → Option WriteRequest
  pub parse_server_conf : String → Option ServerConf
  -- `serde_json::to_string(…).unwrap_or_default()`
  pub read_json : ReadResponse → String
  pub write_json : WriteResponse → String
  pub statuses_json : List (String × String) → String
  pub status_json : PlcConnectionStatus → String
  -- base64 and p256
  pub Key : Type 0
  pub base64_decode : String → Option (List ℕ)
  pub from_pkcs8_der : List ℕ → Option Key
  pub from_pkcs8_pem : String → Option Key
  pub sign_bytes : Key → List ℕ → List ℕ
  -- the network and the clock: `none` where the time is before 1970
  pub unix_millis : s7.World → Option ℕ × s7.World
  pub tcp_connect : String → ℕ → s7.World → Bool × s7.World  -- within three seconds
  pub endpoint_error : String → Option String  -- of `Endpoint::new`
  pub connect : String → s7.World → Result (Unit {0}) String × s7.World
  pub send : PlcResponse → s7.World → s7.World
  -- `tokio::time::interval`, where `none` is its panic, which the documentation gives for a period of zero
  pub interval : ℕ → Option ℕ
  pub interval-positive : (ms : ℕ) → 0 < ms → interval ms ≡ some ms
