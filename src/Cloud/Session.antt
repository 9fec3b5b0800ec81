-- ===== src/Cloud/Session.antt =====
-- The session's state, the signatures, and what it sends. The world that the session acts on is that of
-- its S7 manager. A local log line has no effect on the state.
pub mod Signed
use Prim.Native.String.{◌++◌ as ◌<>◌}
use filling_pilot_edge_rs.Common.{
  ℕ, suc, ◌+◌, ◌%◌, ◌^◌, String, Bool, true, false, Option, none, some, List, [], ◌∷◌, ◌++◌, str_eq,
  if◌then◌else◌, unwrap_or,
}
use filling_pilot_edge_rs.Common.Bytes.{to_be}
use filling_pilot_edge_rs.Common.Dict.{Dict}
use filling_pilot_edge_rs.Common.Int.{ℤ, pos, signed, pattern_of}
use filling_pilot_edge_rs.Common.Text.{show_ℕ}
use filling_pilot_edge_rs.Context.{Context}
use filling_pilot_edge_rs.Cloud.Types.{CloudCrates, EcnInfo, PlcResponse}
use filling_pilot_edge_rs.Deploy.Meta.{MetaDefinition}
use filling_pilot_edge_rs.Error.{Result, ok, err}
use filling_pilot_edge_rs.Monitor.Config.{MonitorProcessor}
use filling_pilot_edge_rs.Report.Cache.{ReportCache, as_i64}
use filling_pilot_edge_rs.S7.Crate.{S7Crate}
use filling_pilot_edge_rs.S7.Pool.{S7Manager, key_of}
use filling_pilot_edge_rs.S7.Types.{PlcConfig, PlcConnectionStatus}

-- `CloudSession`. The last two fields are not in the source: the messages that were handed to
-- `client.send`, and the infos that were handed to `client.register` and `client.heart_beat`, in order.
pub record CloudSession (s7 : S7Crate) : Type 0 where
  pub connected : Bool  -- `client.is_some()`
  pub id : String
  pub random_number : ℤ  -- i64
  pub private_key : String
  pub heart_beat_ms : ℕ
  pub report_interval_ms : ℕ
  pub status_interval_ms : ℕ
  pub server_address : String
  pub port : ℕ
  pub last_plc_detail : String
  pub s7_manager : S7Manager s7
  pub report_cache : ReportCache
  pub monitor_processor : MonitorProcessor
  pub meta_cache : Dict String MetaDefinition
  pub outbox : List PlcResponse
  pub greetings : List EcnInfo

module _ {s7 : S7Crate} where
  -- The session after a call that acts on the world alone.
  abbrev pub in_world : s7.World → CloudSession s7 → CloudSession s7
  in_world w s = record s { s7_manager = record (s.s7_manager) { world = w } }

module _ {s7 : S7Crate} (crates : CloudCrates s7) where
  open crates use {Key}

  -- `as_millis() as i64`, or the default before 1970
  abbrev pub millis_or : ℤ → Option ℕ → ℤ
  millis_or default none = default
  millis_or default (some n) = as_i64 n

  -- `CloudSession::new`
  unfoldable pub new : Context → S7Manager s7 → Dict String MetaDefinition → CloudSession s7
  new ctx manager meta_cache =
      let (millis, w) = crates.unix_millis manager.world in
      record {
        connected = false;
        id = ctx.id;
        random_number = millis_or (pos 0) millis;
        private_key = unwrap_or ctx.private_key "";
        heart_beat_ms = ctx.heart_beat;
        report_interval_ms = ctx.report_interval;
        status_interval_ms = ctx.status_interval;
        server_address = ctx.server_address;
        port = ctx.port;
        last_plc_detail = "";
        s7_manager = record manager { world = w };
        report_cache = record { caches = []; status_cache = []; last_status_sent_time = [] };
        monitor_processor = record { monitors = []; states = []; fill_stations = [] };
        meta_cache = meta_cache;
        outbox = [];
        greetings = [];
      }

  abbrev or_pem : Option Key → String → Option Key
  or_pem (some key) text = some key
  or_pem none text = crates.from_pkcs8_pem text

  abbrev key_from : Option (List ℕ) → String → Option Key
  key_from (some bytes) text = or_pem (crates.from_pkcs8_der bytes) text
  key_from none text = crates.from_pkcs8_pem text

  abbrev signed_by : Option Key → ℤ → String
  signed_by none n = ""
  signed_by (some key) n =
      crates.hex.encode (crates.sign_bytes key (to_be 8 (pattern_of 18446744073709551616 n)))

  -- `sign`, of a private key and a number
  unfoldable pub signature : String → ℤ → String
  signature private_key n =
      if str_eq private_key ""
      then ""
      else signed_by (key_from (crates.base64_decode private_key) private_key) n

  unfoldable pub build_ecn_info : CloudSession s7 → EcnInfo
  unfolding signature
  build_ecn_info s = record {
    id = s.id;
    random_number = s.random_number;
    sign = signature s.private_key s.random_number;
  }

  abbrev pub connected_by :
      Result (Unit {0}) String × s7.World
      → CloudSession s7
      → Result (Unit {0}) String × CloudSession s7
  connected_by (ok done, w) s = (ok tt, record (in_world w s) { connected = true })
  connected_by (err e, w) s = (err ("Failed to connect: " <> e), in_world w s)

  abbrev pub connect_to :
      Option String → String → CloudSession s7 → Result (Unit {0}) String × CloudSession s7
  connect_to (some e) address s = (err ("Invalid endpoint: " <> e), s)
  connect_to none address s = connected_by (crates.connect address s.s7_manager.world) s

  unfoldable pub connect : CloudSession s7 → Result (Unit {0}) String × CloudSession s7
  connect s =
      let address = "http://" <> key_of s.server_address s.port in
      connect_to (crates.endpoint_error address) address s

  -- The message of a response.
  unfoldable pub response : CloudSession s7 → String → String → String → PlcResponse
  unfolding signature
  response s plc_id message_type message = record {
    id = s.id;
    message_type = message_type;
    plc_id = plc_id;
    random_number = s.random_number;
    sign = signature s.private_key s.random_number;
    message = message;
  }

  -- Hands a message to the client, if there is one; an error of the call is logged.
  unfoldable pub deliver : PlcResponse → CloudSession s7 → CloudSession s7
  deliver r s =
      if s.connected
      then record (in_world (crates.send r s.s7_manager.world) s) { outbox = s.outbox ++ (r ∷ []) }
      else s

  unfoldable pub send_plc_response : String → String → String → CloudSession s7 → CloudSession s7
  unfolding deliver response
  send_plc_response plc_id message_type message s =
      deliver (response s plc_id message_type message) s

  -- `for (msg_type, msg) in … { self.send_plc_response("", &msg_type, &msg) }`
  unfoldable pub send_all : List (String × String) → CloudSession s7 → CloudSession s7
  unfolding send_plc_response
  send_all [] s = s
  send_all ((message_type, message) ∷ messages) s =
      send_all messages (send_plc_response "" message_type message s)

  unfoldable pub send_plc_status : PlcConnectionStatus → CloudSession s7 → CloudSession s7
  unfolding send_plc_response
  send_plc_status status s =
      send_plc_response (key_of status.host status.port)
        (if status.connected then "plcInfo" else "plcInfoFail") (crates.status_json status) s

  unfoldable pub test_tcp_connection : String → ℕ → CloudSession s7 → Bool × CloudSession s7
  test_tcp_connection host port s =
      let (reached, w) = crates.tcp_connect host port s.s7_manager.world in (reached, in_world w s)

  -- The loop over the PLCs, with the number of those that answer.
  unfoldable pub test_plcs : List PlcConfig → CloudSession s7 → ℕ × CloudSession s7
  unfolding send_plc_response test_tcp_connection
  test_plcs [] s = (0, s)
  test_plcs (plc ∷ plcs) s =
      let (reached, s') = test_tcp_connection plc.ip plc.port s in
      let answered =
        send_plc_response plc.id (if reached then "plcInfo" else "plcInfoFail")
          (if reached then "ok" else "failed") s' in
      let (count, s'') = test_plcs plcs answered in ((if reached then suc count else count), s'')
