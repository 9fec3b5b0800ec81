-- ===== src/Deploy/Encoding.antt =====
-- When the encoding of the content of a deployment panics.
use filling_pilot_edge_rs.Common.{
  ℕ, usize, suc, ◌+◌, ◌-◌, ◌≤◌, ◌<◌, ◌^◌, ◌≡◌, min, refl, ap, ◌∙◌, String, false, ◌&&◌, none, some,
  List, ◌∷◌, arith, length, leb, ltb,
}
use filling_pilot_edge_rs.Common.Dict
use filling_pilot_edge_rs.Common.Dict.{Dict}
use filling_pilot_edge_rs.Common.Eq.{String_eq}
use filling_pilot_edge_rs.Json.{string}
use filling_pilot_edge_rs.Codec.Crates.{Crates}
use filling_pilot_edge_rs.Codec.Registry.{Codec, lookup, encode}
use filling_pilot_edge_rs.Codec.Texts.{string_encode, text_bytes}
use filling_pilot_edge_rs.Deploy.Meta.{
  DataBlockPropertyDefinition, put_prefix, meta_size, place_value, encode_definition,
  encode_definitions,
}

module _ (crates : Crates) where
  open crates use {json}
  open json use {Value, Number, view, make}

  put_prefix-short :
      (start size : ℕ) (s : String) (buffer : List ℕ)
      → start + size ≤ length buffer
      → length buffer < 2 ^ 64
      → length (crates.into_bytes s) ≤ 254
      → length (crates.into_bytes s) + 2 < size
      → put_prefix start size (string_encode crates (make (string s))) buffer ≡ none
  unfolding put_prefix string_encode text_bytes
  put_prefix-short start size s buffer inside whole fits short =
      let end = min (usize (start + size)) (length buffer) in
      let n = length (crates.into_bytes s) in
      let takes : ltb 254 n ≡ false = ground arith in
      let panics : (leb start end && leb (end - start) (suc (suc n))) ≡ false = ground arith in
      simp (json.view-make (string s), takes, panics) refl

  string_codec : (t : String) → t ≡ "string" → lookup t ≡ some Codec.string
  string_codec t e = ap lookup e ∙ unfold lookup in refl

  -- Encoding panics at a text that is encoded to fewer bytes than its property has in the block: the
  -- slice `encoded[..(end - start)]` is longer than the encoded text.
  pub short_text_panics :
      (p : DataBlockPropertyDefinition) (ps : List DataBlockPropertyDefinition)
      (content : Dict String Value) (buffer : List ℕ) (s : String)
      → p.property_type ≡ "string"
      → p.count ≡ 1
      → p.offset + meta_size crates p ≤ length buffer
      → length buffer < 2 ^ 64
      → Dict.get p.name content ≡ some (make (string s))
      → length (crates.into_bytes s) ≤ 254
      → length (crates.into_bytes s) + 2 < meta_size crates p
      → encode_definitions crates (p ∷ ps) content buffer ≡ none
  unfolding encode_definitions encode_definition place_value encode
  short_text_panics p ps content buffer s t c inside whole found fits short =
      simp
        (
          c,
          found,
          string_codec p.property_type t,
          put_prefix-short p.offset (meta_size crates p) s buffer inside whole fits short,
        )
        refl
