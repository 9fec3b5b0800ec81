-- ===== src/S7/Types.antt =====
-- The configuration, the status and the requests of src/s7.rs.
use filling_pilot_edge_rs.Common.{ℕ, String, Bool, Option, none}

pub record PlcConfig : Type 0 where
  pub id : String
  pub ip : String
  pub port : ℕ

pub record PlcConnectionStatus : Type 0 where
  pub host : String
  pub port : ℕ
  pub connected : Bool
  pub latency_ms : Option ℕ

pub record ReadRequest : Type 0 where
  pub request_id : Option String
  pub plc_id : String
  pub ip : String
  pub port : ℕ
  pub db_index : ℕ
  pub offset : ℕ
  pub size : ℕ

-- `ReadRequest::default`
abbrev pub default_read_request : ReadRequest
default_read_request = record {
  request_id = none;
  plc_id = "";
  ip = "";
  port = 102;
  db_index = 1;
  offset = 0;
  size = 10;
}

pub record ReadResponse : Type 0 where
  pub request_id : Option String
  pub plc_id : String
  pub ip : String
  pub port : ℕ
  pub db_index : ℕ
  pub offset : ℕ
  pub success : Bool
  pub message : String
  pub hex_content : Option String

pub record WriteRequest : Type 0 where
  pub request_id : Option String
  pub plc_id : String
  pub ip : String
  pub port : ℕ
  pub db_index : ℕ
  pub offset : ℕ
  pub hex_content : String

pub record WriteResponse : Type 0 where
  pub request_id : Option String
  pub plc_id : String
  pub ip : String
  pub port : ℕ
  pub db_index : ℕ
  pub offset : ℕ
  pub success : Bool
  pub message : String
