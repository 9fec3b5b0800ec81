-- ===== src/Monitor/Disk.antt =====
-- The file of the monitors, `~/.edge/monitor-meta.json` (`load_from_disk` and `persist_to_disk` of
-- `Monitor` and of `MonitorProcessor`).
pub mod Restart
use Prim.Native.String.{◌++◌ as ◌<>◌}
use filling_pilot_edge_rs.Common.{
  ℕ, ◌^◌, Bool, String, Option, none, some, List, [], ◌∷◌, is_empty, unwrap_or, if◌then◌else◌,
}
use filling_pilot_edge_rs.Common.Dict.{Dict}
use filling_pilot_edge_rs.Common.Maybe.{◌>>=◌}
use filling_pilot_edge_rs.Files.{Files, block_on, cache_dir, load_text, persist_value}
use filling_pilot_edge_rs.Json.{Json, array, object}
use filling_pilot_edge_rs.Json.Derive.{
  struct_fields, required, text_value, unsigned_value, list_value, of_text, of_unsigned, of_list,
}
use filling_pilot_edge_rs.Monitor.Config.{Monitor, MonitorProcessor, insert_monitors}

-- `MonitorProcessor::new`
abbrev pub new : MonitorProcessor
new = record { monitors = []; states = []; fill_stations = [] }

-- The fields of a monitor in a file, in their order.
abbrev pub monitor_names : List String
monitor_names =
    "id" ∷ "merchantId" ∷ "ip" ∷ "port" ∷ "name" ∷ "code" ∷ "dbNumber" ∷ "offset" ∷ "blockSize"
    ∷ "type" ∷ "frequency" ∷ "resendInterval" ∷ "forwardAddress" ∷ "localAddress" ∷ []

module _ (json : Json) where
  open json use {Value, view, make}

  -- the derived `Serialize`
  unfoldable pub monitor_fields : Monitor → Dict String Value
  monitor_fields m =
      ("id", of_text json m.id)
      ∷ ("merchantId", of_text json m.merchant_id)
      ∷ ("ip", of_text json m.ip)
      ∷ ("port", of_unsigned json m.port)
      ∷ ("name", of_text json m.name)
      ∷ ("code", of_text json m.code)
      ∷ ("dbNumber", of_unsigned json m.db_number)
      ∷ ("offset", of_unsigned json m.offset)
      ∷ ("blockSize", of_unsigned json m.block_size)
      ∷ ("type", of_text json m.monitor_type)
      ∷ ("frequency", of_unsigned json m.frequency)
      ∷ ("resendInterval", of_unsigned json m.resend_interval)
      ∷ ("forwardAddress", of_text json m.forward_address)
      ∷ ("localAddress", of_text json m.local_address)
      ∷ []

  unfoldable pub monitor_value : Monitor → Value
  unfolding monitor_fields
  monitor_value m = make (object (monitor_fields m))

  -- the derived `Deserialize`
  unfoldable pub monitor_from : Dict String Value → Option Monitor
  monitor_from fields = do
    id ← required (text_value json) "id" fields
    merchant_id ← required (text_value json) "merchantId" fields
    ip ← required (text_value json) "ip" fields
    port ← required (unsigned_value json (2 ^ 16)) "port" fields
    name ← required (text_value json) "name" fields
    code ← required (text_value json) "code" fields
    db_number ← required (unsigned_value json (2 ^ 16)) "dbNumber" fields
    offset ← required (unsigned_value json (2 ^ 32)) "offset" fields
    block_size ← required (unsigned_value json (2 ^ 32)) "blockSize" fields
    monitor_type ← required (text_value json) "type" fields
    frequency ← required (unsigned_value json (2 ^ 64)) "frequency" fields
    resend_interval ← required (unsigned_value json (2 ^ 64)) "resendInterval" fields
    forward_address ← required (text_value json) "forwardAddress" fields
    local_address ← required (text_value json) "localAddress" fields
    some (record {
      id = id;
      merchant_id = merchant_id;
      ip = ip;
      port = port;
      name = name;
      code = code;
      db_number = db_number;
      offset = offset;
      block_size = block_size;
      monitor_type = monitor_type;
      frequency = frequency;
      resend_interval = resend_interval;
      forward_address = forward_address;
      local_address = local_address;
    })

  unfoldable pub monitor_of : Value → Option Monitor
  unfolding monitor_from
  monitor_of v = do fields ← struct_fields 14 monitor_names (view v); monitor_from fields

module _ (json : Json) (files : Files json.Value) where
  open files use {Disk}
  open json use {Value, make}

  -- `PLCSerializeMetaFactory::monitor_meta_file_path`
  abbrev pub persist_path : String
  persist_path = cache_dir files <> "/monitor-meta.json"

  -- `Monitor::load_from_disk`
  unfoldable pub load_monitors : Disk → List Monitor
  unfolding monitor_of
  load_monitors d =
      unwrap_or
        (do
          text ← load_text files persist_path d
          value ← files.from_str text
          list_value json (monitor_of json) value)
        []

  -- `Monitor::persist_to_disk`
  unfoldable pub persist_monitors : List Monitor → Disk → Disk
  unfolding monitor_value
  persist_monitors monitors d =
      if is_empty monitors
      then d
      else persist_value files persist_path
          (make (array (of_list json (monitor_value json) monitors))) d

  -- `MonitorProcessor::load_from_disk`, on a thread that may be one of the runtime's; `none` is a panic.
  unfoldable pub load_from_disk : Bool → Disk → MonitorProcessor → Option MonitorProcessor
  unfolding load_monitors
  load_from_disk in_runtime d p =
      let monitors = load_monitors d in
      if is_empty monitors then some p else block_on in_runtime (insert_monitors monitors p)

  -- A round of `start_persistence_loop`, on a thread of its own.
  unfoldable pub persistence_round : MonitorProcessor → Disk → Disk
  unfolding persist_monitors
  persistence_round p d = if is_empty p.monitors then d else persist_monitors p.monitors d
