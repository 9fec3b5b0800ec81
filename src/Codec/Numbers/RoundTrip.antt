-- ===== src/Codec/Numbers/RoundTrip.antt =====
-- Numbers in range survive the way to bytes and back, and bytes survive the way to numbers and back.
use native.Mathlib.Nat.{mod-eq_of_lt}
use mathlib.Core.Option.{some-injective}
use filling_pilot_edge_rs.Common.{
  ℕ, ◌+◌, ◌/◌, ◌^◌, ◌≤◌, ◌<◌, ◌≡◌, refl, sym, ap, String, Option, none, some, List, [], ◌∷◌, arith,
  length, take, All, subst,
}
use filling_pilot_edge_rs.Common.Bytes.{
  IsByte, from_be, to_be, length-to_be, from_be-to_be, to_be-from_be, from_be-lt,
}
use filling_pilot_edge_rs.Common.Int.{
  ℤ, pos, negsuc, signed, pattern_of, InSigned, signed-pattern_of, pattern_of-signed, pattern_of-lt,
}
use filling_pilot_edge_rs.Error.{ok}
use filling_pilot_edge_rs.Json.{number}
use filling_pilot_edge_rs.Codec.Crates.{Crates, ByteOrder}
use filling_pilot_edge_rs.Codec.Numbers.{
  byte_of, byte_decode, uint_of, uint_decode, int_of, int_decode, long_of, narrow,
}
use filling_pilot_edge_rs.Codec.Texts.{and_then}
use filling_pilot_edge_rs.Codec.Registry.{Codec, encode, decode}
use filling_pilot_edge_rs.Codec.Registry.Sizes.{length-write_uint, power_pos}

take-length : {A : Type 0} (xs : List A) → take (length xs) xs ≡ xs
take-length [] = refl
take-length (x ∷ xs) = ap (◌∷◌ x) (take-length xs)

take_all : {A : Type 0} (n : ℕ) (xs : List A) → length xs ≡ n → take n xs ≡ xs
take_all n xs h = subst (λ k. take k xs ≡ xs) h (take-length xs)

module _ (order : ByteOrder) where
  read-write_uint : (n v : ℕ) → v < 256 ^ n → order.read_uint n (order.write_uint n v) ≡ v
  read-write_uint n v h =
      let size = length-to_be n v in
      rw
        (
          order.write_uint-eq n v h,
          order.read_uint-eq n (to_be n v) (omega (arith, size)),
          take_all n (to_be n v) size,
        )
        (from_be-to_be n v h)

  read_uint-lt :
      (bytes : List ℕ)
      → All IsByte bytes
      → order.read_uint (length bytes) bytes < 256 ^ length bytes
  read_uint-lt bytes h =
      rw (order.read_uint-eq (length bytes) bytes (omega arith), take-length bytes)
        (omega (arith, from_be-lt 0 bytes h))

  write-read_uint :
      (bytes : List ℕ)
      → All IsByte bytes
      → order.write_uint (length bytes) (order.read_uint (length bytes) bytes) ≡ bytes
  write-read_uint bytes h =
      let fits : from_be 0 bytes < 256 ^ length bytes = omega (arith, from_be-lt 0 bytes h) in
      rw
        (
          order.read_uint-eq (length bytes) bytes (omega arith),
          take-length bytes,
          order.write_uint-eq (length bytes) (from_be 0 bytes) fits,
        )
        (to_be-from_be bytes h)

  -- The range of n bytes, as twice its half.
  read-write_int :
      (n : ℕ) (z : ℤ)
      → 256 ^ n / 2 + 256 ^ n / 2 ≡ 256 ^ n
      → InSigned (256 ^ n / 2) z
      → order.read_int n (order.write_int n z) ≡ z
  read-write_int n z even h =
      let p = pattern_of (256 ^ n) z in
      let fits : p < 256 ^ n = pattern_of-lt (256 ^ n) z (power_pos n) in
      let size = length-to_be n p in
      rw
        (
          order.write_int-eq n z,
          order.read_int-eq n (to_be n p) (omega (arith, size)),
          take_all n (to_be n p) size,
          from_be-to_be n p fits,
        )
        (subst (λ m. signed (256 ^ n / 2) (pattern_of m z) ≡ z) even
          (signed-pattern_of (256 ^ n / 2) z h))

  write-read_int :
      (bytes : List ℕ)
      → 256 ^ length bytes / 2 + 256 ^ length bytes / 2 ≡ 256 ^ length bytes
      → All IsByte bytes
      → order.write_int (length bytes) (order.read_int (length bytes) bytes) ≡ bytes
  write-read_int bytes even h =
      let half = 256 ^ length bytes / 2 in
      let u = from_be 0 bytes in
      let fits : u < half + half = omega (arith, from_be-lt 0 bytes h, even) in
      rw
        (
          order.read_int-eq (length bytes) bytes (omega arith),
          take-length bytes,
          order.write_int-eq (length bytes) (signed half u),
          subst (λ m. pattern_of m (signed half u) ≡ u) even (pattern_of-signed half u fits),
        )
        (to_be-from_be bytes h)

  length-write_int : (n : ℕ) (z : ℤ) → length (order.write_int n z) ≡ n
  length-write_int n z = rw (order.write_int-eq n z) (length-to_be n _)

-- The unsigned and the signed codecs, with their numbers of bytes.
abbrev pub unsigned_width : Codec → Option ℕ
unsigned_width Codec.byte = some 1
unsigned_width Codec.word = some 2
unsigned_width Codec.dword = some 4
unsigned_width _ = none

abbrev pub signed_width : Codec → Option ℕ
signed_width Codec.integer = some 2
signed_width Codec.dint = some 4
signed_width Codec.lint = some 8
signed_width _ = none

module _ (crates : Crates) where
  open crates use {json, big_endian}
  open json use {Value, Number, view, make}

  -- A number of w bytes, and the codecs of that width.
  uint_roundtrip :
      (w v : ℕ) (m : String)
      → v < 256 ^ w
      → 256 ^ w ≤ 2 ^ 64
      → and_then (uint_of crates w m (number (json.from_u64 v))) (uint_decode crates w)
        ≡ ok (make (number (json.from_u64 v)))
  unfolding uint_of uint_decode
  uint_roundtrip w v m h small =
      rw (json.as_u64-from_u64 v (omega arith), mod-eq_of_lt h, read-write_uint big_endian w v h)
        (ground (arith, length-write_uint big_endian w v h))

  int_roundtrip :
      (w : ℕ) (z : ℤ)
      → 256 ^ w / 2 + 256 ^ w / 2 ≡ 256 ^ w
      → InSigned (256 ^ w / 2) z
      → int_decode crates w (big_endian.write_int w z) ≡ ok (make (number (json.from_i64 z)))
  unfolding int_decode
  int_roundtrip w z even h =
      rw (read-write_int big_endian w z even h) (ground (arith, length-write_int big_endian w z))

  narrow-id :
      (w : ℕ) (z : ℤ)
      → 256 ^ w / 2 + 256 ^ w / 2 ≡ 256 ^ w
      → InSigned (256 ^ w / 2) z
      → narrow w z ≡ z
  narrow-id w z even h =
      subst (λ m. signed (256 ^ w / 2) (pattern_of m z) ≡ z) even
        (signed-pattern_of (256 ^ w / 2) z h)

  InSigned-weaken : (a b : ℕ) (z : ℤ) → a ≤ b → InSigned a z → InSigned b z
  InSigned-weaken a b (pos n) h k = omega arith
  InSigned-weaken a b (negsuc n) h k = omega arith

  -- An unsigned number that fits the codec (byte, word, dword) is decoded from the bytes that it is
  -- encoded to.
  pub decode-encode_unsigned :
      (c : Codec) (w v : ℕ)
      → unsigned_width c ≡ some w
      → v < 256 ^ w
      → and_then (encode crates c (make (number (json.from_u64 v)))) (decode crates c)
        ≡ ok (make (number (json.from_u64 v)))
  unfolding encode decode
  decode-encode_unsigned Codec.byte w v e h =
      let fits : v < 256 = subst (λ x. v < 256 ^ x) (sym (some-injective _ _ e)) h in
      rw (json.view-make (number (json.from_u64 v))) (
        unfold byte_of byte_decode in
        (rw (json.as_u64-from_u64 v (omega arith), mod-eq_of_lt fits)))
  decode-encode_unsigned Codec.word w v e h =
      let fits : v < 256 ^ 2 = subst (λ x. v < 256 ^ x) (sym (some-injective _ _ e)) h in
      rw (json.view-make (number (json.from_u64 v)))
        (uint_roundtrip 2 v "Invalid word" fits (omega arith))
  decode-encode_unsigned Codec.dword w v e h =
      let fits : v < 256 ^ 4 = subst (λ x. v < 256 ^ x) (sym (some-injective _ _ e)) h in
      rw (json.view-make (number (json.from_u64 v)))
        (uint_roundtrip 4 v "Invalid dword" fits (omega arith))
  decode-encode_unsigned c w v e h = absurd (cc)

  -- A signed number that fits the codec (integer, dint, lint) is decoded from the bytes that it is
  -- encoded to.
  pub decode-encode_signed :
      (c : Codec) (w : ℕ) (z : ℤ)
      → signed_width c ≡ some w
      → InSigned (256 ^ w / 2) z
      → and_then (encode crates c (make (number (json.from_i64 z)))) (decode crates c)
        ≡ ok (make (number (json.from_i64 z)))
  unfolding encode decode int_of long_of
  decode-encode_signed Codec.integer w z e h =
      let fits : InSigned (256 ^ 2 / 2) z =
        subst (λ x. InSigned (256 ^ x / 2) z) (sym (some-injective _ _ e)) h in
      rw
        (
          json.view-make (number (json.from_i64 z)),
          json.as_i64-from_i64 z (InSigned-weaken (256 ^ 2 / 2) (2 ^ 63) z (omega arith) fits),
          narrow-id 2 z refl fits,
        )
        (int_roundtrip 2 z refl fits)
  decode-encode_signed Codec.dint w z e h =
      let fits : InSigned (256 ^ 4 / 2) z =
        subst (λ x. InSigned (256 ^ x / 2) z) (sym (some-injective _ _ e)) h in
      rw
        (
          json.view-make (number (json.from_i64 z)),
          json.as_i64-from_i64 z (InSigned-weaken (256 ^ 4 / 2) (2 ^ 63) z (omega arith) fits),
          narrow-id 4 z refl fits,
        )
        (int_roundtrip 4 z refl fits)
  decode-encode_signed Codec.lint w z e h =
      let fits : InSigned (256 ^ 8 / 2) z =
        subst (λ x. InSigned (256 ^ x / 2) z) (sym (some-injective _ _ e)) h in
      rw
        (
          json.view-make (number (json.from_i64 z)),
          json.as_i64-from_i64 z (InSigned-weaken (256 ^ 8 / 2) (2 ^ 63) z (omega arith) fits),
        )
        (int_roundtrip 8 z refl fits)
  decode-encode_signed c w z e h = absurd (cc)
