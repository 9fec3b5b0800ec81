-- ===== src/Deploy/Meta.antt =====
-- `PLCSerializeMetaFactory`: the definitions by type, decoding as a map, and encoding of content.
-- The property types are texts here, and index the registry as they are.
use Prim.Native.String.{◌++◌ as ◌<>◌}
use filling_pilot_edge_rs.Common.{
  ℕ, zero, suc, ◌+◌, ◌-◌, ◌*◌, usize, ltb, ◌==◌, min, String, ◌||◌, ◌&&◌, Option, none, some, List,
  [], ◌∷◌, leb, str_eq, length, take, replicate, unwrap_or, if◌then◌else◌,
}
use filling_pilot_edge_rs.Common.Bytes.{copy_into}
use filling_pilot_edge_rs.Common.Dict
use filling_pilot_edge_rs.Common.Dict.{Dict}
use filling_pilot_edge_rs.Common.Eq.{String_eq}
use filling_pilot_edge_rs.Error.{Result, ok, err}
use filling_pilot_edge_rs.Json.{View, array, object}
use filling_pilot_edge_rs.Codec.Crates.{Crates}
use filling_pilot_edge_rs.Codec.Registry.{Codec, lookup, encode, decode}
use filling_pilot_edge_rs.Codec.Block.{slice, push_front, insert_decoded, insert_array, bind}

pub record DataBlockPropertyDefinition : Type 0 where
  pub name : String
  pub property_type : String
  pub offset : ℕ
  pub count : ℕ
  pub byte_size : Option ℕ

-- deploy.rs has a `DataBlockDefinition` of its own.
pub record MetaDefinition : Type 0 where
  pub java_type : String
  pub block_size : ℕ
  pub data_block_property_definition_list : List DataBlockPropertyDefinition

-- `for def in &all_definitions { cache.insert(…) }`
unfoldable pub save_definitions :
    List MetaDefinition → Dict String MetaDefinition → Dict String MetaDefinition
save_definitions [] cache = cache
save_definitions (d ∷ ds) cache = save_definitions ds (Dict.insert d.java_type d cache)

-- `type_size`, of the name in lower case; some arms have capitals
unfoldable pub size_of_lowercase : String → ℕ
size_of_lowercase s =
    if str_eq s "boolean" || str_eq s "bool"
    then 1
    else if str_eq s "byte"
    then 1
    else if str_eq s "char"
    then 1
    else if str_eq s "integer" || str_eq s "int" || str_eq s "word"
    then 2
    else if str_eq s "intAsBigDecimal"
    then 2
    else if str_eq s "dint" || str_eq s "dword" || str_eq s "real" || str_eq s "float"
    then 4
    else if str_eq s "longAsInt"
    then 8
    else if str_eq s "lint"
        || str_eq s "long"
        || str_eq s "datetime"
        || str_eq s "bigdecimal"
        || str_eq s "longAsDateTime"
        || str_eq s "integerAsBigDecimal"
    then 8
    else if str_eq s "string"
    then 256
    else if str_eq s "wstring"
    then 512
    else if str_eq s "ip" || str_eq s "ipaddress"
    then 4
    else 1

-- The bytes of a value at their place, as many as the place has up to the end of the buffer; `none` is
-- a panic of one of the two slices.
unfoldable pub put_prefix : ℕ → ℕ → Result (List ℕ) String → List ℕ → Option (List ℕ)
put_prefix start size (err e) buffer = some buffer
put_prefix start size (ok encoded) buffer =
    let end = min (usize (start + size)) (length buffer) in
    if leb start end && leb (end - start) (length encoded)
    then some (copy_into buffer start (take (end - start) encoded))
    else none

-- `Err("Missing DataBlockDefinition for type: …")`
abbrev missing : String → String
missing java_type = "Missing DataBlockDefinition for type: " <> java_type

-- `Ok(bytes)`, unless there was a panic
abbrev pub returned : Option (List ℕ) → Option (Result (List ℕ) String)
returned none = none
returned (some bytes) = some (ok bytes)

module _ (crates : Crates) where
  open crates use {json}
  open json use {Value, Number, view, make}

  unfoldable pub meta_size : DataBlockPropertyDefinition → ℕ
  unfolding size_of_lowercase
  meta_size p = unwrap_or p.byte_size (size_of_lowercase (crates.to_lowercase p.property_type))

  -- An item, if the registry has the codec, in front of what the later items give.
  unfoldable pub push_decoded : Option Codec → List ℕ → Option (List Value) → Option (List Value)
  push_decoded none bytes rest = rest
  push_decoded (some codec) bytes rest = push_front crates (decode crates codec bytes) rest

  -- The items of an array, until one starts past the end; `none` is the panic of a range that ends before
  -- its start.
  unfoldable pub decode_elements : Option Codec → ℕ → ℕ → ℕ → List ℕ → Option (List Value)
  unfolding push_decoded
  decode_elements codec size start zero bytes = some []
  decode_elements codec size start (suc n) bytes =
      let next = usize (start + size) in
      let rest = decode_elements codec size next n bytes in
      let end = min next (length bytes) in
      if leb (length bytes) start
      then some []
      else if ltb end start
      then none
      else push_decoded codec (slice start (end - start) bytes) rest

  unfoldable pub insert_single :
      Option Codec → String → List ℕ → Dict String Value → Dict String Value
  insert_single none name bytes values = values
  insert_single (some codec) name bytes values =
      insert_decoded crates name (decode crates codec bytes) values

  unfoldable pub decode_definition :
      DataBlockPropertyDefinition → List ℕ → Dict String Value → Option (Dict String Value)
  unfolding meta_size insert_single decode_elements
  decode_definition p bytes values =
      let size = meta_size p in
      let end = min (usize (p.offset + usize (size * p.count))) (length bytes) in
      if leb (length bytes) p.offset
      then some values
      else if p.count == 1
      then (if ltb end p.offset
          then none
          else some (
              insert_single (lookup p.property_type) p.name (slice p.offset (end - p.offset) bytes)
                values))
      else insert_array crates p.name
          (decode_elements (lookup p.property_type) size p.offset p.count bytes) values

  unfoldable pub decode_definitions :
      List DataBlockPropertyDefinition → List ℕ → Dict String Value → Option (Dict String Value)
  unfolding decode_definition
  decode_definitions [] bytes values = some values
  decode_definitions (p ∷ ps) bytes values =
      bind (decode_definition p bytes values) (decode_definitions ps bytes)

  -- `Ok(map)`, unless there was a panic
  abbrev pub mapped : Option (Dict String Value) → Option (Result (Dict String Value) String)
  mapped none = none
  mapped (some values) = some (ok values)

  unfoldable pub decode_defined :
      Option MetaDefinition → String → List ℕ → Option (Result (Dict String Value) String)
  unfolding decode_definitions
  decode_defined none java_type bytes = some (err (missing java_type))
  decode_defined (some d) java_type bytes =
      mapped (decode_definitions d.data_block_property_definition_list bytes [])

  -- `PLCSerializeMetaFactory::decode_as_map`; `none` is a panic
  unfoldable pub decode_as_map :
      List ℕ → String → Dict String MetaDefinition → Option (Result (Dict String Value) String)
  unfolding decode_defined
  decode_as_map bytes java_type cache = decode_defined (Dict.get java_type cache) java_type bytes

  -- A value, if the registry has the codec.
  unfoldable pub place_value : Option Codec → Value → ℕ → ℕ → List ℕ → Option (List ℕ)
  unfolding put_prefix
  place_value none value start size buffer = some buffer
  place_value (some codec) value start size buffer =
      put_prefix start size (encode crates codec value) buffer

  unfoldable pub place_values : Option Codec → ℕ → ℕ → ℕ → List Value → List ℕ → Option (List ℕ)
  unfolding place_value
  place_values codec start size zero items buffer = some buffer
  place_values codec start size (suc n) [] buffer = some buffer
  place_values codec start size (suc n) (item ∷ items) buffer =
      bind (place_value codec item start size buffer)
        (λ written. place_values codec (usize (start + size)) size n items written)

  unfoldable pub place_array :
      Option Codec → ℕ → ℕ → ℕ → View Value Number → List ℕ → Option (List ℕ)
  unfolding place_values
  place_array codec start size n (array items) buffer = place_values codec start size n items buffer
  place_array codec start size n _ buffer = some buffer

  unfoldable pub encode_definition :
      Option Value → DataBlockPropertyDefinition → List ℕ → Option (List ℕ)
  unfolding place_value place_array meta_size
  encode_definition none p buffer = some buffer
  encode_definition (some value) p buffer =
      let codec = lookup p.property_type in
      if p.count == 1
      then place_value codec value p.offset (meta_size p) buffer
      else place_array codec p.offset (meta_size p) p.count (view value) buffer

  unfoldable pub encode_definitions :
      List DataBlockPropertyDefinition → Dict String Value → List ℕ → Option (List ℕ)
  unfolding encode_definition
  encode_definitions [] content buffer = some buffer
  encode_definitions (p ∷ ps) content buffer =
      bind (encode_definition (Dict.get p.name content) p buffer) (encode_definitions ps content)

  unfoldable pub encode_defined :
      Option MetaDefinition → String → Dict String Value → Option (Result (List ℕ) String)
  unfolding encode_definitions
  encode_defined none java_type content = some (err (missing java_type))
  encode_defined (some d) java_type content =
      returned (
        encode_definitions d.data_block_property_definition_list content (replicate d.block_size 0))

  -- `PLCSerializeMetaFactory::encode`; `none` is a panic
  unfoldable pub encode_content :
      View Value Number → String → Dict String MetaDefinition → Option (Result (List ℕ) String)
  unfolding encode_defined
  encode_content (object content) java_type cache =
      encode_defined (Dict.get java_type cache) java_type content
  encode_content _ java_type cache = some (err "Content must be a JSON object")
