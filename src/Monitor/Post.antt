-- ===== src/Monitor/Post.antt =====
-- The post to a monitor's local service (`send_local_http_post`): its body, and what is done with the
-- answer. The lock of the metadata is taken for a plain read.
pub mod Blocking
use filling_pilot_edge_rs.Common.{
  ℕ, ◌≡◌, refl, String, Option, none, some, List, [], ◌∷◌, str_eq, if◌then◌else◌, arith, unwrap_or,
}
use filling_pilot_edge_rs.Common.Dict
use filling_pilot_edge_rs.Common.Dict.{Dict}
use filling_pilot_edge_rs.Common.Eq.{String_eq}
use filling_pilot_edge_rs.Deploy.Meta.{MetaDefinition, decode_as_map}
use filling_pilot_edge_rs.Deploy.Write.{DeployCrates, try_call_back}
use filling_pilot_edge_rs.Error.{Result, ok, err}
use filling_pilot_edge_rs.Files.{Files, ok_text}
use filling_pilot_edge_rs.Json.{object}
use filling_pilot_edge_rs.Common.Maybe.{◌>>=◌}
use filling_pilot_edge_rs.Monitor.Config.{Monitor}
use filling_pilot_edge_rs.Monitor.Message.{message_fields}
use filling_pilot_edge_rs.Processor.{HexCrate}
use filling_pilot_edge_rs.S7.Crate.{S7Crate}
use filling_pilot_edge_rs.S7.Pool.{S7Manager}

-- `for (k, v) in decoded { request_map.insert(k, v) }`
unfoldable pub merge_fields {ℓ} : {V : Type ℓ} → Dict String V → Dict String V → Dict String V
merge_fields [] fields = fields
merge_fields ((k, v) ∷ decoded) fields = merge_fields decoded (Dict.insert k v fields)

abbrev pub ok_of {ℓ κ} : {A : Type ℓ} {E : Type κ} → Result A E → Option A
ok_of (ok a) = some a
ok_of (err e) = none

abbrev pub merged {ℓ} : {V : Type ℓ} → Option (Dict String V) → Dict String V → Dict String V
merged none fields = fields
merged (some decoded) fields = merge_fields decoded fields

-- The HTTP client of reqwest, with a timeout of ten seconds: the text of an answer. An error of the
-- client, the call or the text is logged.
pub record HttpClient (World : Type 0) : Type 0 where
  pub post : String → String → World → Option String × World

-- What a post sends where serde fails.
abbrev pub body_or : Option String → String
body_or o = unwrap_or o "{}"

module _ (crates : DeployCrates) (hex : HexCrate) where
  open crates use {codec}
  open codec use {json}
  open json use {Value, make}

  abbrev fields_of :
      Option (Result (Dict String Value) String) → Option (Option (Dict String Value))
  fields_of none = none
  fields_of (some r) = some (ok_of r)

  -- The fields of a text that is hexadecimal. The definition of its type is under a lock, for which
  -- `decode_as_map` blocks its thread; the outer `none` is a panic.
  abbrev pub decode_hex :
      String
      → Dict String MetaDefinition
      → Result (List ℕ) String
      → Option (Option (Dict String Value))
  decode_hex java_type cache (ok bytes) =
      if crates.can_block then fields_of (decode_as_map codec bytes java_type cache) else none
  decode_hex java_type cache (err e) = some none

  unfoldable pub decoded_fields :
      Monitor → String → Dict String MetaDefinition → Option (Option (Dict String Value))
  decoded_fields m text cache =
      if str_eq m.monitor_type ""
      then some none
      else decode_hex m.monitor_type cache (hex.decode text)

  -- The fields of the body, an object.
  unfoldable pub request_fields :
      Monitor → String → Dict String MetaDefinition → Option (Dict String Value)
  unfolding decoded_fields merge_fields message_fields
  request_fields m text cache = do
    decoded ← decoded_fields m text cache
    some (merged decoded (message_fields json m text))

module _ (crates : DeployCrates) where
  -- What is done with the text of the answer, if there is one.
  unfoldable pub post_answered :
      {s7 : S7Crate}
      → Monitor
      → Option String
      → Dict String MetaDefinition
      → Dict String (String × ℕ)
      → S7Manager s7
      → Option (S7Manager s7)
  post_answered m none cache stations p = some p
  post_answered m (some text) cache stations p =
      try_call_back crates text cache stations (some m.ip) (some m.port) p

module _ (crates : DeployCrates) (hex : HexCrate) (files : Files crates.codec.json.Value) where
  open crates.codec.json use {make}

  -- `send_local_http_post`, with the task that it starts; `none` is a panic of either.
  unfoldable pub send_local_http_post :
      {s7 : S7Crate}
      → HttpClient s7.World
      → Monitor
      → String
      → Dict String MetaDefinition
      → Dict String (String × ℕ)
      → S7Manager s7
      → Option (S7Manager s7)
  unfolding request_fields post_answered
  send_local_http_post client m text cache stations p =
      if str_eq m.local_address "" then some p else do
        fields ← request_fields crates hex m text cache
        let body = body_or (ok_text (files.to_string_pretty (make (object fields))))
        let (answer, w) = client.post m.local_address body p.world
        post_answered crates m answer cache stations (record p { world = w })

-- The first that is there.
abbrev pub first_of {ℓ} : {V : Type ℓ} → Option V → Option V → Option V
first_of none b = b
first_of (some a) b = some a

-- A decoded field takes the place of a field of the monitor with the same name; the others stay.
pub get-merge_fields {ℓ} :
    {V : Type ℓ} (k : String) (decoded fields : Dict String V)
    → Dict.get k (merge_fields decoded fields)
      ≡ first_of (Dict.get k (merge_fields decoded [])) (Dict.get k fields)
unfolding merge_fields Dict.get
get-merge_fields k [] fields = refl
get-merge_fields k ((j, v) ∷ decoded) fields = ground (
  arith,
  get-merge_fields k decoded (Dict.insert j v fields),
  get-merge_fields k decoded (Dict.insert j v []),
  Dict.get-insert k j v fields,
  Dict.get-insert k j v [],
)
