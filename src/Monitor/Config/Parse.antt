-- ===== src/Monitor/Config/Parse.antt =====
-- `Monitor::parse_from_plc_info`: the monitors of a configuration from the cloud.
use filling_pilot_edge_rs.Common.{
  ◌≡◌, ℕ, ◌%◌, ◌^◌, ◌<◌, ◌≤◌, max, String, Option, none, some, List, [], ◌∷◌, ◌++◌, map, unwrap_or,
  All, All-append, arith, Option-cases, inl, inr,
}
use filling_pilot_edge_rs.Json.{Json}
use filling_pilot_edge_rs.Common.Maybe.{◌>>=◌}
use filling_pilot_edge_rs.Json.Members.{number_of, member, str_at, u64_at, array_at}
use filling_pilot_edge_rs.Monitor.Config.{Monitor}
use filling_pilot_edge_rs.Report.Station.Parse.{address_of}

module _ (json : Json) where
  open json use {Value}

  abbrev text_at : String → Value → String
  text_at key m = unwrap_or (str_at json key m) ""

  abbrev size_at : String → ℕ → Value → ℕ
  size_at key default m = unwrap_or (u64_at json key m) default

  unfoldable pub parse_monitor : String → ℕ → Value → Monitor
  parse_monitor ip port m = record {
    id = text_at "id" m;
    merchant_id = text_at "merchantId" m;
    ip = ip;
    port = port;
    name = text_at "name" m;
    code = text_at "code" m;
    db_number = size_at "dbNumber" 0 m % 2 ^ 16;
    offset = size_at "offset" 0 m % 2 ^ 32;
    block_size = size_at "blockSize" 0 m % 2 ^ 32;
    monitor_type = text_at "type" m;
    frequency = max (size_at "frequency" 50 m) 50;
    resend_interval = max (size_at "resendInterval" 1000 m) 1000;
    forward_address = text_at "forwardAddress" m;
    local_address = text_at "localAddress" m;
  }

  unfoldable pub monitors_of : Option (String × ℕ) → Option (List Value) → List Monitor
  unfolding parse_monitor
  monitors_of (some (ip, port)) (some monitor_list) = map (parse_monitor ip port) monitor_list
  monitors_of (some address) none = []
  monitors_of none monitor_list = []

  -- `Monitor::parse_from_plc_info`
  unfoldable pub parse_monitors : List Value → List Monitor
  unfolding monitors_of
  parse_monitors [] = []
  parse_monitors (plc ∷ plc_info) =
      monitors_of (address_of json plc) (array_at json "monitorList" plc) ++ parse_monitors plc_info

-- The fields of a monitor lie within their widths, and its intervals are not below the least ones.
pub record IsConfigured (m : Monitor) : Type 0 where
  pub port_fits : m.port < 2 ^ 16
  pub db_number_fits : m.db_number < 2 ^ 16
  pub offset_fits : m.offset < 2 ^ 32
  pub block_size_fits : m.block_size < 2 ^ 32
  pub frequency_min : 50 ≤ m.frequency
  pub frequency_fits : m.frequency < 2 ^ 64
  pub resend_min : 1000 ≤ m.resend_interval
  pub resend_fits : m.resend_interval < 2 ^ 64

module _ (json : Json) where
  open json use {Value, view}

  number-lt : (n : Option json.Number) (k : ℕ) → (n >>= λ x. json.as_u64 x) ≡ some k → k < 2 ^ 64
  number-lt none k h = absurd (cc)
  number-lt (some n) k h = json.as_u64-lt n k h

  member-lt :
      (v : Option Value) (k : ℕ)
      → (v >>= λ x. number_of (view x) >>= λ n. json.as_u64 n) ≡ some k
      → k < 2 ^ 64
  member-lt none k h = absurd (cc)
  member-lt (some v) k h = number-lt (number_of (view v)) k h

  size_at-lt :
      (key : String) (default : ℕ) (m : Value)
      → default < 2 ^ 64
      → unwrap_or (u64_at json key m) default < 2 ^ 64
  unfolding u64_at
  size_at-lt key default m h = elim (Option-cases (u64_at json key m)) [
    | inl missing ↦ simp missing h
    | inr there ↦ simp there.1 (member-lt (member key (view m)) there.0 there.1)
  ]

  parse_monitor-IsConfigured :
      (ip : String) (port : ℕ) (m : Value)
      → port < 2 ^ 16
      → IsConfigured (parse_monitor json ip port m)
  unfolding parse_monitor
  parse_monitor-IsConfigured ip port m h = record {
    port_fits = h;
    db_number_fits = omega arith;
    offset_fits = omega arith;
    block_size_fits = omega arith;
    frequency_min = omega arith;
    frequency_fits = omega (arith, size_at-lt "frequency" 50 m (omega arith));
    resend_min = omega arith;
    resend_fits = omega (arith, size_at-lt "resendInterval" 1000 m (omega arith));
  }

  map-IsConfigured :
      (ip : String) (port : ℕ) (ms : List Value)
      → port < 2 ^ 16
      → All IsConfigured (map (parse_monitor json ip port) ms)
  map-IsConfigured ip port [] h = tt
  map-IsConfigured ip port (m ∷ ms) h =
      (parse_monitor-IsConfigured ip port m h, map-IsConfigured ip port ms h)

  -- The address of a PLC is checked by its type.
  abbrev AddressFits : Option (String × ℕ) → Type 0
  AddressFits none = Unit
  AddressFits (some (ip, port)) = port < 2 ^ 16

  address_of-fits : (plc : Value) → AddressFits (address_of json plc)
  address_of-fits plc = elim (Option-cases (str_at json "ipAddress" plc)) [
    | inl no_ip ↦ simp no_ip tt
    | inr ip ↦ elim (Option-cases (u64_at json "portNumber" plc)) [
      | inl no_port ↦ simp (ip.1, no_port) tt
      | inr port ↦ simp (ip.1, port.1) (omega arith)
    ]
  ]

  monitors_of-IsConfigured :
      (address : Option (String × ℕ)) (list : Option (List Value))
      → AddressFits address
      → All IsConfigured (monitors_of json address list)
  unfolding monitors_of
  monitors_of-IsConfigured (some (ip, port)) (some ms) h = map-IsConfigured ip port ms h
  monitors_of-IsConfigured (some a) none h = tt
  monitors_of-IsConfigured none list h = tt

  -- Every monitor of every configuration has fields within their widths, a frequency of at least 50 ms
  -- and a resend interval of at least 1000 ms.
  pub parse_monitors-IsConfigured :
      (plc_info : List Value) → All IsConfigured (parse_monitors json plc_info)
  unfolding parse_monitors
  parse_monitors-IsConfigured [] = tt
  parse_monitors-IsConfigured (plc ∷ plc_info) =
      All-append IsConfigured
        (monitors_of json (address_of json plc) (array_at json "monitorList" plc))
        (parse_monitors json plc_info)
        (monitors_of-IsConfigured (address_of json plc) (array_at json "monitorList" plc)
          (address_of-fits plc))
        (parse_monitors-IsConfigured plc_info)
