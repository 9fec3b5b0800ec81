-- ===== src/Deploy/Write.antt =====
-- `deploy`, `deploy_all`, and the callbacks that lead to them (`MonitorProcessor::try_call_back`).
-- An outer `none` is a panic.
pub mod Blocked
use Prim.Native.String.{◌++◌ as ◌<>◌}
use filling_pilot_edge_rs.Common.{
  ℕ, ◌+◌, ◌-◌, ◌%◌, usize, min, String, Bool, Option, none, some, List, [], ◌∷◌, ltb, length,
  str_eq, if◌then◌else◌,
}
use filling_pilot_edge_rs.Common.Dict
use filling_pilot_edge_rs.Common.Dict.{Dict}
use filling_pilot_edge_rs.Common.Eq.{String_eq}
use filling_pilot_edge_rs.Error.{Error, Result, ok, err}
use filling_pilot_edge_rs.Codec.Block.{slice}
use filling_pilot_edge_rs.Codec.Crates.{Crates}
use filling_pilot_edge_rs.Deploy.Meta.{MetaDefinition, encode_content}
use filling_pilot_edge_rs.Json.{View, object}
use filling_pilot_edge_rs.S7.Crate.{S7Crate}
use filling_pilot_edge_rs.S7.Pool.{S7Manager, write_bytes}

pub record Deployment (Value : Type 0) : Type 0 where
  pub fill_station_id : Option String
  pub ip : Option String
  pub port : Option ℕ
  pub db_number : ℕ
  pub offset : ℕ
  pub length : ℕ
  pub content_type : String
  pub content : Value

-- The address of a station, or of the monitor that had the callback.
unfoldable pub station_address : String → Option (String × ℕ) → Result (String × ℕ) String
station_address fs_id (some address) = ok address
station_address fs_id none = err ("FillStation " <> (fs_id <> " not found"))

unfoldable pub monitor_address : Option String → Option ℕ → Result (String × ℕ) String
monitor_address (some ip) (some port) = ok (ip, port)
monitor_address (some ip) none = err "Cannot resolve PLC IP/port for deploy"
monitor_address none port = err "Cannot resolve PLC IP/port for deploy"

unfoldable pub resolve :
    Option String → Dict String (String × ℕ) → Option String → Option ℕ → Result (String × ℕ) String
unfolding station_address monitor_address
resolve (some fs_id) stations monitor_ip monitor_port =
    station_address fs_id (Dict.get fs_id stations)
resolve none stations monitor_ip monitor_port = monitor_address monitor_ip monitor_port

-- `end`
unfoldable pub end_of : ℕ → ℕ → ℕ → ℕ
end_of offset length size = if ltb 0 length then min (usize (offset + length)) size else size

-- What the deployments use of other crates: the codecs, the text of an error, whether
-- `Handle::block_on` may be called on the thread of the deployment (its documentation says that it panics
-- on a thread that drives asynchronous tasks), and serde_json's parsers of a callback.
pub record DeployCrates : Type 1 where
  pub codec : Crates
  pub error_text : Error → String
  pub can_block : Bool
  pub trim : String → String
  -- the field `pilotCallback`, of a text that is parsed
  pub parse_callback : String → Option (Option String)
  pub parse_deployment : String → Option (Deployment codec.json.Value)
  pub parse_deployments : String → Option (List (Deployment codec.json.Value))

module _ (crates : DeployCrates) where
  open crates use {codec}
  open codec use {json}
  open json use {Value, Number, view}

  abbrev pub write_result : Result (Unit {0}) Error → Result (Unit {0}) String
  write_result (ok done) = ok done
  write_result (err e) = err ("S7 write failed: " <> crates.error_text e)

  unfoldable pub write_slice :
      {s7 : S7Crate}
      → Deployment Value
      → String × ℕ
      → List ℕ
      → S7Manager s7
      → Option (Result (Unit {0}) String × S7Manager s7)
  unfolding end_of
  write_slice d (ip, port) encoded p =
      let end = end_of d.offset d.length (length encoded) in
      let to_write = slice d.offset (end - d.offset) encoded in
      let (result, p') = write_bytes ip port (d.db_number % 65536) (d.offset % 65536) to_write p in
      if ltb end d.offset then none else some (write_result result, p')

  unfoldable pub write_encoding :
      {s7 : S7Crate}
      → Deployment Value
      → String × ℕ
      → Option (Result (List ℕ) String)
      → S7Manager s7
      → Option (Result (Unit {0}) String × S7Manager s7)
  unfolding write_slice
  write_encoding d address none p = none
  write_encoding d address (some (err e)) p = some (err e, p)
  write_encoding d address (some (ok encoded)) p = write_slice d address encoded p

  -- `encode`, with the lock of the definitions, for which it blocks its thread once the content is an
  -- object.
  unfoldable pub encode_blocking :
      View Value Number → String → Dict String MetaDefinition → Option (Result (List ℕ) String)
  encode_blocking (object content) java_type cache =
      if crates.can_block then encode_content codec (object content) java_type cache else none
  encode_blocking other java_type cache = encode_content codec other java_type cache

  unfoldable pub deploy_at :
      {s7 : S7Crate}
      → Deployment Value
      → Dict String MetaDefinition
      → Result (String × ℕ) String
      → S7Manager s7
      → Option (Result (Unit {0}) String × S7Manager s7)
  unfolding write_encoding encode_blocking
  deploy_at d cache (err e) p = some (err e, p)
  deploy_at d cache (ok address) p =
      write_encoding d address (encode_blocking (view d.content) d.content_type cache) p

  unfoldable pub deploy :
      {s7 : S7Crate}
      → Deployment Value
      → Dict String MetaDefinition
      → Dict String (String × ℕ)
      → Option String
      → Option ℕ
      → S7Manager s7
      → Option (Result (Unit {0}) String × S7Manager s7)
  unfolding deploy_at resolve
  deploy d cache stations monitor_ip monitor_port p =
      deploy_at d cache (resolve d.fill_station_id stations monitor_ip monitor_port) p

  -- The manager after a deployment: an error is logged, a panic ends the task.
  abbrev pub manager_of :
      {s7 : S7Crate} → Option (Result (Unit {0}) String × S7Manager s7) → Option (S7Manager s7)
  manager_of none = none
  manager_of (some (r, p)) = some p

  abbrev pub and_then_deploy :
      {s7 : S7Crate}
      → Option (S7Manager s7)
      → (S7Manager s7 → Option (S7Manager s7))
      → Option (S7Manager s7)
  and_then_deploy none k = none
  and_then_deploy (some p) k = k p

  unfoldable pub deploy_all :
      {s7 : S7Crate}
      → List (Deployment Value)
      → Dict String MetaDefinition
      → Dict String (String × ℕ)
      → Option String
      → Option ℕ
      → S7Manager s7
      → Option (S7Manager s7)
  unfolding deploy
  deploy_all [] cache stations ip port p = some p
  deploy_all (d ∷ ds) cache stations ip port p =
      and_then_deploy (manager_of (deploy d cache stations ip port p))
        (deploy_all ds cache stations ip port)

  -- The `match` on the parsed deployment, and on the parsed list.
  unfoldable pub deploy_parsed :
      {s7 : S7Crate}
      → Option (Deployment Value)
      → Dict String MetaDefinition
      → Dict String (String × ℕ)
      → Option String
      → Option ℕ
      → S7Manager s7
      → Option (S7Manager s7)
  deploy_parsed none cache stations ip port p = some p
  deploy_parsed (some d) cache stations ip port p = manager_of (deploy d cache stations ip port p)

  unfoldable pub deploy_all_parsed :
      {s7 : S7Crate}
      → Option (List (Deployment Value))
      → Dict String MetaDefinition
      → Dict String (String × ℕ)
      → Option String
      → Option ℕ
      → S7Manager s7
      → Option (S7Manager s7)
  deploy_all_parsed none cache stations ip port p = some p
  deploy_all_parsed (some ds) cache stations ip port p = deploy_all ds cache stations ip port p

  unfoldable pub call_back :
      {s7 : S7Crate}
      → String
      → Option (Option String)
      → Dict String MetaDefinition
      → Dict String (String × ℕ)
      → Option String
      → Option ℕ
      → S7Manager s7
      → Option (S7Manager s7)
  unfolding deploy_parsed deploy_all_parsed
  call_back text none cache stations ip port p = some p
  call_back text (some none) cache stations ip port p = some p
  call_back text (some (some callback)) cache stations ip port p =
      if str_eq callback "pilotService/deploy"
      then deploy_parsed (crates.parse_deployment text) cache stations ip port p
      else if str_eq callback "pilotService/deployAll"
      then deploy_all_parsed (crates.parse_deployments text) cache stations ip port p
      else some p

  unfoldable pub try_call_back :
      {s7 : S7Crate}
      → String
      → Dict String MetaDefinition
      → Dict String (String × ℕ)
      → Option String
      → Option ℕ
      → S7Manager s7
      → Option (S7Manager s7)
  unfolding call_back
  try_call_back response cache stations ip port p =
      let text = crates.trim response in
      if str_eq text ""
      then some p
      else call_back text (crates.parse_callback text) cache stations ip port p
