-- ===== src/Cloud/Legacy.antt =====
-- The JSON twins of the protocol's messages (src/grpc/mod.rs), for the HTTP interface.
use filling_pilot_edge_rs.Common.{String}
use filling_pilot_edge_rs.Common.Int.{ℤ, pos}

pub record EcnInfoJson : Type 0 where
  pub id : String
  pub random_number : ℤ
  pub sign : String

pub record PlcResponseJson : Type 0 where
  pub id : String
  pub msg_type : String
  pub plc_id : String
  pub random_number : ℤ
  pub sign : String
  pub message : String

pub record ServerCommandJson : Type 0 where
  pub cmd_type : String
  pub detail : String

-- `PlcResponseJson::success`
abbrev pub success : String → String → String → PlcResponseJson
success plc_id msg_type message = record {
  id = "";
  msg_type = msg_type;
  plc_id = plc_id;
  random_number = pos 0;
  sign = "";
  message = message;
}

-- `PlcResponseJson::error`
abbrev pub error : String → String → String → PlcResponseJson
error plc_id msg_type text = record {
  id = "";
  msg_type = msg_type;
  plc_id = plc_id;
  random_number = pos 0;
  sign = "";
  message = text;
}
