-- ===== src/Codec/Texts/RoundTrip.antt =====
-- Texts on the way to bytes and back.
use filling_pilot_edge_rs.Common.{
  ℕ, suc, ◌+◌, ◌*◌, ◌%◌, ◌<◌, ◌≡◌, refl, ap, String, List, [], ◌∷◌, arith, length, take, ltb,
  Bool-cases, inl, inr, true, false, if◌then◌else◌, length-append,
}
use filling_pilot_edge_rs.Common.Bytes.{to_be, length-to_be}
use filling_pilot_edge_rs.Common.Text.{encode_utf16}
use filling_pilot_edge_rs.Error.{ok, err}
use filling_pilot_edge_rs.Json.{string}
use filling_pilot_edge_rs.Codec.Crates.{Crates}
use filling_pilot_edge_rs.Codec.Texts.{
  and_then, text_bytes, string_encode, string_decode, wide_text, unit_bytes, wstring_encode,
  wstring_decode,
}

take-length : {A : Type 0} (xs : List A) → take (length xs) xs ≡ xs
take-length [] = refl
take-length (x ∷ xs) = ap (◌∷◌ x) (take-length xs)

length-unit_bytes : (us : List ℕ) → length (unit_bytes us) ≡ length us * 2
unfolding unit_bytes
length-unit_bytes [] = refl
length-unit_bytes (u ∷ us) =
    omega (arith, length-append (to_be 2 u) (unit_bytes us), length-to_be 2 u, length-unit_bytes us)

module _ (crates : Crates) where
  open crates use {json}
  open json use {Value, view, make}

  text_bytes-decode :
      (bytes : List ℕ) (s : String)
      → crates.from_utf8 bytes ≡ ok s
      → and_then (text_bytes crates bytes) (string_decode crates)
        ≡ (if ltb 254 (length bytes) then err "Too long" else ok (make (string s)))
  unfolding text_bytes string_decode
  text_bytes-decode bytes s utf8 = elim (Bool-cases (ltb 254 (length bytes))) [
    | inl long ↦ rw long
    | inr fits ↦
        let low : length bytes % 256 ≡ length bytes = ground arith in
        let header : ltb (suc (suc (length bytes))) 2 ≡ false = ground arith in
        let whole : ltb (suc (suc (length bytes))) (2 + length bytes) ≡ false = ground arith in
        simp (fits, low, header, whole, take-length bytes, utf8) refl
  ]

  -- A text whose UTF-8 is read back and takes at most 254 bytes is decoded from the bytes that it is
  -- encoded to; a longer one is refused.
  pub decode-encode_string :
      (s : String)
      → crates.from_utf8 (crates.into_bytes s) ≡ ok s
      → and_then (string_encode crates (make (string s))) (string_decode crates)
        ≡ (if ltb 254 (length (crates.into_bytes s)) then err "Too long" else ok (make (string s)))
  unfolding string_encode
  decode-encode_string s utf8 =
      rw (json.view-make (string s)) (text_bytes-decode (crates.into_bytes s) s utf8)

  -- A wide text of fewer than 254 UTF-16 units is not decoded from the bytes that it is encoded to: the
  -- decoder takes the capacity, 254, for the length, and finds the text truncated.
  pub decode-encode_wstring :
      (s : String)
      → length (encode_utf16 s) < 254
      → and_then (wstring_encode crates (make (string s))) (wstring_decode crates)
        ≡ err "WString truncated"
  unfolding wstring_encode wstring_decode wide_text
  decode-encode_wstring s short =
      let truncated : ltb (suc (suc (suc (suc (length (unit_bytes (encode_utf16 s)))))))
            (4 + (254 + 0 * 256) * 2)
          ≡ true =
        ground (arith, length-unit_bytes (encode_utf16 s)) in
      let header : ltb (suc (suc (suc (suc (length (unit_bytes (encode_utf16 s))))))) 4 ≡ false =
        ground arith in
      simp (json.view-make (string s), header, truncated) refl
