-- ===== src/Monitor/Message.antt =====
-- The message that tells the cloud of a monitor's block (`build_monitor_message`).
use filling_pilot_edge_rs.Common.{
  Bool, ℕ, ◌≡◌, ◌<◌, ◌^◌, ◌%◌, refl, String, some, [], ◌∷◌, max, arith,
}
use filling_pilot_edge_rs.Common.Dict
use filling_pilot_edge_rs.Common.Dict.{Dict}
use filling_pilot_edge_rs.Common.Eq.{String_eq}
use filling_pilot_edge_rs.Json.{Json, number, string, object}
use filling_pilot_edge_rs.Json.Members.{str_at, u64_at}
use filling_pilot_edge_rs.Monitor.Config.{Monitor}
use filling_pilot_edge_rs.Monitor.Turn.{Crates}
use filling_pilot_edge_rs.Processor.{HexCrate}
use filling_pilot_edge_rs.Monitor.Config.Parse.{IsConfigured, parse_monitor}

module _ (json : Json) where
  open json use {Value, Number, view, make}

  abbrev of_text : String → Value
  of_text s = make (string s)

  abbrev of_number : ℕ → Value
  of_number n = make (number (json.from_u64 n))

  unfoldable pub message_fields : Monitor → String → Dict String Value
  message_fields m text =
      ("id", of_text m.id)
      ∷ ("merchantId", of_text m.merchant_id)
      ∷ ("ip", of_text m.ip)
      ∷ ("port", of_number m.port)
      ∷ ("name", of_text m.name)
      ∷ ("code", of_text m.code)
      ∷ ("dbNumber", of_number m.db_number)
      ∷ ("offset", of_number m.offset)
      ∷ ("blockSize", of_number m.block_size)
      ∷ ("type", of_text m.monitor_type)
      ∷ ("frequency", of_number m.frequency)
      ∷ ("resendInterval", of_number m.resend_interval)
      ∷ ("forwardAddress", of_text m.forward_address)
      ∷ ("localAddress", of_text m.local_address)
      ∷ ("data", of_text text)
      ∷ []

  unfoldable pub build_monitor_message : Monitor → String → String
  unfolding message_fields
  build_monitor_message m text = json.to_text (make (object (message_fields m text)))

  str_at-make :
      (key : String) (fields : Dict String Value) (s : String)
      → Dict.get key fields ≡ some (of_text s)
      → str_at json key (make (object fields)) ≡ some s
  unfolding str_at
  str_at-make key fields s h =
      rw (json.view-make (object fields), h, json.view-make (string s)) refl

  u64_at-make :
      (key : String) (fields : Dict String Value) (n : ℕ)
      → Dict.get key fields ≡ some (of_number n)
      → n < 2 ^ 64
      → u64_at json key (make (object fields)) ≡ some n
  unfolding u64_at
  u64_at-make key fields n h fits =
      rw (json.view-make (object fields), h, json.view-make (number (json.from_u64 n)))
        (json.as_u64-from_u64 n fits)

  -- The message of a configured monitor describes it as a configuration does: its fields are parsed
  -- back to the monitor.
  pub parse_monitor-message :
      (m : Monitor) (text : String)
      → IsConfigured m
      → parse_monitor json m.ip m.port (make (object (message_fields m text))) ≡ m
  unfolding parse_monitor message_fields Dict.get
  parse_monitor-message m text h =
      let fields = message_fields m text in
      let db : m.db_number % 65536 ≡ m.db_number = omega (arith, h.db_number_fits) in
      let offset : m.offset % 4294967296 ≡ m.offset = omega (arith, h.offset_fits) in
      let size : m.block_size % 4294967296 ≡ m.block_size = omega (arith, h.block_size_fits) in
      let frequency : max m.frequency 50 ≡ m.frequency = omega (arith, h.frequency_min) in
      let resend : max m.resend_interval 1000 ≡ m.resend_interval = omega (arith, h.resend_min) in
      rw
        (
          str_at-make "id" fields m.id refl,
          str_at-make "merchantId" fields m.merchant_id refl,
          str_at-make "name" fields m.name refl,
          str_at-make "code" fields m.code refl,
          u64_at-make "dbNumber" fields m.db_number refl (omega (arith, h.db_number_fits)),
          u64_at-make "offset" fields m.offset refl (omega (arith, h.offset_fits)),
          u64_at-make "blockSize" fields m.block_size refl (omega (arith, h.block_size_fits)),
          str_at-make "type" fields m.monitor_type refl,
          u64_at-make "frequency" fields m.frequency refl h.frequency_fits,
          u64_at-make "resendInterval" fields m.resend_interval refl h.resend_fits,
          str_at-make "forwardAddress" fields m.forward_address refl,
          str_at-make "localAddress" fields m.local_address refl,
        )
        (rw (db, offset, size, frequency, resend) refl)

-- What a pass over the monitors uses, with the message of this module.
abbrev pub message_crates : Json → HexCrate → Bool → Crates
message_crates json hex can_block = record {
  can_block = can_block;
  hex_encode = hex.encode;
  monitor_json = build_monitor_message json;
}
