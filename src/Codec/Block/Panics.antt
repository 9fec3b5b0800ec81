-- ===== src/Codec/Block/Panics.antt =====
-- When encoding a block panics.
use filling_pilot_edge_rs.Common.{
  ℕ, suc, ◌+◌, ◌≤◌, ◌<◌, ◌≡◌, refl, String, true, false, none, some, List, ◌∷◌, arith, length, leb,
  ltb, ◌==◌, usize, ◌-◌, Bool-cases, inl, inr,
}
use filling_pilot_edge_rs.Common.Dict
use filling_pilot_edge_rs.Common.Dict.{Dict}
use filling_pilot_edge_rs.Common.Eq.{String_eq}
use filling_pilot_edge_rs.Json.{string}
use filling_pilot_edge_rs.Codec.Crates.{Crates}
use filling_pilot_edge_rs.Codec.Property.{
  DataBlockProperty, PropertyType, as_str, size_of, type_size,
}
use filling_pilot_edge_rs.Codec.Registry.{lookup, encode}
use filling_pilot_edge_rs.Codec.Texts.{string_encode, text_bytes}
use filling_pilot_edge_rs.Codec.Block.{put, write_item, encode_with, encode_properties}

module _ (crates : Crates) where
  open crates use {json}
  open json use {Value, make}

  put_string :
      (start size : ℕ) (s : String) (buffer : List ℕ)
      → length (crates.into_bytes s) + 2 < size
      → size ≤ 256
      → put start (usize (start + size)) (string_encode crates (make (string s))) buffer ≡ none
  unfolding put string_encode text_bytes
  put_string start size s buffer short size_fits =
      let fits : ltb 254 (length (crates.into_bytes s)) ≡ false = ground arith in
      let end = usize (start + size) in
      let n = length (crates.into_bytes s) in
      elim (Bool-cases (ltb end start)) [
        | inl before ↦ simp (json.view-make (string s), fits, before) refl
        | inr behind ↦
            let differs : (suc (suc n) == end - start) ≡ false = ground arith in
            simp (json.view-make (string s), fits, behind, differs) refl
      ]

  -- Encoding panics at a string property of the standard size, 256, that lies in the block, if its value
  -- is a text of fewer than 254 bytes: the encoded text is shorter than the slice it is copied to.
  pub short_string_panics :
      (p : DataBlockProperty) (ps : List DataBlockProperty) (values : Dict String Value)
      (buffer : List ℕ) (s : String)
      → p.property_type ≡ PropertyType.string
      → p.byte_size ≡ none
      → p.count ≡ 1
      → p.offset + 256 ≤ length buffer
      → Dict.get p.name values ≡ some (make (string s))
      → length (crates.into_bytes s) < 254
      → encode_properties crates (p ∷ ps) values buffer ≡ none
  unfolding encode_properties encode_with write_item size_of type_size as_str lookup encode
  short_string_panics p ps values buffer s t b c inside found short =
      let fits : leb (usize (p.offset + 256)) (length buffer) ≡ true = ground arith in
      simp (t, b, c, found, fits, put_string p.offset 256 s buffer (omega arith) (omega arith)) refl
