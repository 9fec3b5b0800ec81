-- ===== src/Codec/Block.antt =====
-- Decoding and encoding a data block (src/codec/data_block.rs).
pub mod Panics
pub mod Encoding
pub mod Arrays
use filling_pilot_edge_rs.Common.{
  ℕ, zero, suc, ◌+◌, ◌-◌, ◌*◌, usize, ◌==◌, String, Bool, ◌||◌, Option, none, some, List, [], ◌∷◌,
  ltb, leb, str_eq, length, take, drop, replicate, is_empty, unwrap_or, if◌then◌else◌,
}
use filling_pilot_edge_rs.Common.Bytes.{copy_into}
use filling_pilot_edge_rs.Common.Dict
use filling_pilot_edge_rs.Common.Dict.{Dict}
use filling_pilot_edge_rs.Common.Eq.{String_eq}
use filling_pilot_edge_rs.Error.{Result, ok, err}
use filling_pilot_edge_rs.Json.{View, null, bool, number, string, array, object}
use filling_pilot_edge_rs.Codec.Crates.{Crates}
use filling_pilot_edge_rs.Codec.Property.{DataBlockProperty, DataBlockDefinition, as_str, size_of}
use filling_pilot_edge_rs.Codec.Registry.{Codec, lookup, encode, decode}

-- Of the bytes, `size` from `start` on.
abbrev pub slice : ℕ → ℕ → List ℕ → List ℕ
slice start size bytes = take size (drop start bytes)

-- The bytes of a value, in the range from `start` to `end`; `none` is a panic, of a range that ends
-- before its start, or of `copy_from_slice` on another length.
unfoldable pub put : ℕ → ℕ → Result (List ℕ) String → List ℕ → Option (List ℕ)
put start end (err e) buffer = some buffer
put start end (ok encoded) buffer =
    if ltb end start
    then none
    else if length encoded == end - start
    then some (copy_into buffer start encoded)
    else none

abbrev pub bind : {A B : Type 0} → Option A → (A → Option B) → Option B
bind none k = none
bind (some a) k = k a

module _ (crates : Crates) where
  open crates use {json}
  open json use {Value, Number, view, make}

  -- `if let Ok(value) = … { arr.push(value) }`, in front of what the later items give
  unfoldable pub push : Result Value String → List Value → List Value
  push (ok value) rest = value ∷ rest
  push (err e) rest = rest

  abbrev pub push_front : Result Value String → Option (List Value) → Option (List Value)
  push_front r none = none
  push_front r (some rest) = some (push r rest)

  -- The items of an array from `i` on; `none` is the panic of a range that ends before its start.
  unfoldable pub decode_items : Codec → ℕ → ℕ → ℕ → List ℕ → Option (List Value)
  unfolding push
  decode_items codec size i zero bytes = some []
  decode_items codec size i (suc n) bytes =
      let rest = decode_items codec size (suc i) n bytes in
      let start = usize (i * size) in
      let end = usize (start + size) in
      if leb end (length bytes)
      then (if ltb end start
          then none
          else push_front (decode crates codec (slice start (end - start) bytes)) rest)
      else rest

  unfoldable pub insert_decoded :
      String → Result Value String → Dict String Value → Dict String Value
  insert_decoded name (ok value) values = Dict.insert name value values
  insert_decoded name (err e) values = values

  unfoldable pub insert_items : String → List Value → Dict String Value → Dict String Value
  insert_items name [] values = values
  insert_items name (v ∷ vs) values = Dict.insert name (make (array (v ∷ vs))) values

  abbrev pub insert_array :
      String → Option (List Value) → Dict String Value → Option (Dict String Value)
  insert_array name none values = none
  insert_array name (some items) values = some (insert_items name items values)

  unfoldable pub decode_with :
      Option Codec → DataBlockProperty → List ℕ → Dict String Value → Option (Dict String Value)
  unfolding insert_decoded insert_items decode_items size_of
  decode_with none p bytes values = some values
  decode_with (some codec) p bytes values =
      let end = usize (p.offset + size_of p) in
      let prop_bytes = slice p.offset (end - p.offset) bytes in
      if leb end (length bytes)
      then (if ltb end p.offset
          then none
          else if p.count == 1
          then some (insert_decoded p.name (decode crates codec prop_bytes) values)
          else insert_array p.name (decode_items codec (size_of p) 0 p.count prop_bytes) values)
      else some values

  unfoldable pub decode_properties :
      List DataBlockProperty → List ℕ → Dict String Value → Option (Dict String Value)
  unfolding decode_with
  decode_properties [] bytes values = some values
  decode_properties (p ∷ ps) bytes values =
      bind (decode_with (lookup (as_str p.property_type)) p bytes values)
        (decode_properties ps bytes)

  -- `DataBlock::decode`, as `from_bytes` calls it
  unfoldable pub from_bytes : DataBlockDefinition → List ℕ → Option (Dict String Value)
  unfolding decode_properties
  from_bytes definition bytes = decode_properties definition.properties bytes []

  -- An item, if its range lies in the buffer.
  unfoldable pub write_item : ℕ → ℕ → Result (List ℕ) String → List ℕ → Option (List ℕ)
  unfolding put
  write_item start size encoded buffer =
      let end = usize (start + size) in
      if leb end (length buffer) then put start end encoded buffer else some buffer

  -- The items of an array, each behind the one before, `n` at most.
  unfoldable pub write_items : Codec → ℕ → ℕ → ℕ → List Value → List ℕ → Option (List ℕ)
  unfolding write_item
  write_items codec start size zero items buffer = some buffer
  write_items codec start size (suc n) [] buffer = some buffer
  write_items codec start size (suc n) (item ∷ items) buffer =
      bind (write_item start size (encode crates codec item) buffer)
        (λ written. write_items codec (usize (start + size)) size n items written)

  unfoldable pub write_array :
      Codec → DataBlockProperty → View Value Number → List ℕ → Option (List ℕ)
  unfolding write_items size_of
  write_array codec p (array items) buffer =
      write_items codec p.offset (size_of p) p.count items buffer
  write_array codec p _ buffer = some buffer

  unfoldable pub encode_with :
      Option Value → Option Codec → DataBlockProperty → List ℕ → Option (List ℕ)
  unfolding write_item write_array size_of
  encode_with none codec p buffer = some buffer
  encode_with (some value) none p buffer = some buffer
  encode_with (some value) (some codec) p buffer =
      if p.count == 1
      then write_item p.offset (size_of p) (encode crates codec value) buffer
      else write_array codec p (view value) buffer

  unfoldable pub encode_properties :
      List DataBlockProperty → Dict String Value → List ℕ → Option (List ℕ)
  unfolding encode_with
  encode_properties [] values buffer = some buffer
  encode_properties (p ∷ ps) values buffer =
      bind (encode_with (Dict.get p.name values) (lookup (as_str p.property_type)) p buffer)
        (encode_properties ps values)

  -- `DataBlock::encode`
  unfoldable pub encode_block : DataBlockDefinition → Dict String Value → Option (List ℕ)
  unfolding encode_properties
  encode_block definition values =
      encode_properties definition.properties values (replicate definition.total_size 0)
