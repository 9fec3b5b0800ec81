-- ===== src/Codec/Registry/Sizes.antt =====
-- The number of bytes that a codec writes.
use native.Mathlib.Nat.{mod-lt}
use filling_pilot_edge_rs.Common.{
  ℕ, zero, suc, ◌^◌, ◌<◌, ◌==◌, ◌≡◌, refl, String, Option, none, some, List, arith, length,
  unwrap_or, Bool-cases, inl, inr,
}
use filling_pilot_edge_rs.Common.Bytes.{length-to_be}
use filling_pilot_edge_rs.Common.Int.{ℤ}
use filling_pilot_edge_rs.Common.Text.{below, parse_unsigned, split}
use filling_pilot_edge_rs.Error.{Result, ok, err}
use filling_pilot_edge_rs.Json.{View, null, bool, number, string, array, object, text_of}
use filling_pilot_edge_rs.Codec.Crates.{Crates, ByteOrder}
use filling_pilot_edge_rs.Codec.Numbers.{boolean_of, byte_of, uint_of, int_of, long_of, real_of}
use filling_pilot_edge_rs.Codec.Texts.{
  and_then, ok_or, parts_of, four_parts, char_of, ip_encode, bigdecimal_encode,
  long_as_datetime_encode,
}
use filling_pilot_edge_rs.Codec.Registry.{Codec, byte_size, encode}

-- The length of what was encoded is the one that the codec promises.
abbrev pub HasSize : Option ℕ → Result (List ℕ) String → Type 0
HasSize none r = Unit
HasSize (some n) (ok bytes) = length bytes ≡ n
HasSize (some n) (err e) = Unit

pub power_pos : (n : ℕ) → 0 < 256 ^ n
power_pos zero = omega arith
power_pos (suc n) = omega (arith, power_pos n)

pub below-lt : (limit : ℕ) (o : Option ℕ) → 0 < limit → unwrap_or (below limit o) 0 < limit
unfolding below
below-lt limit none h = h
below-lt limit (some n) h = ground arith

module _ (order : ByteOrder) where
  pub length-write_uint : (n v : ℕ) → v < 256 ^ n → length (order.write_uint n v) ≡ n
  length-write_uint n v h = rw (order.write_uint-eq n v h) (length-to_be n v)

  length-write_int : (n : ℕ) (z : ℤ) → length (order.write_int n z) ≡ n
  length-write_int n z = rw (order.write_int-eq n z) (length-to_be n _)

module _ (crates : Crates) where
  open crates use {json}
  open json use {Value, Number, view}

  uint_of-HasSize :
      (n : ℕ) (m : String) (v : View Value Number) → HasSize (some n) (uint_of crates n m v)
  unfolding uint_of parse_unsigned
  uint_of-HasSize n m (number k) = length-write_uint crates.big_endian n _ (mod-lt _ (power_pos n))
  uint_of-HasSize n m (string s) =
      length-write_uint crates.big_endian n _ (below-lt (256 ^ n) _ (power_pos n))
  uint_of-HasSize n m null = tt
  uint_of-HasSize n m (bool b) = tt
  uint_of-HasSize n m (array l) = tt
  uint_of-HasSize n m (object l) = tt

  int_of-HasSize :
      (n : ℕ) (m : String) (v : View Value Number) → HasSize (some n) (int_of crates n m v)
  unfolding int_of
  int_of-HasSize n m (number k) = length-write_int crates.big_endian n _
  int_of-HasSize n m (string s) = length-write_int crates.big_endian n _
  int_of-HasSize n m null = tt
  int_of-HasSize n m (bool b) = tt
  int_of-HasSize n m (array l) = tt
  int_of-HasSize n m (object l) = tt

  long_of-HasSize : (m : String) (v : View Value Number) → HasSize (some 8) (long_of crates m v)
  unfolding long_of
  long_of-HasSize m (number k) = length-write_int crates.big_endian 8 _
  long_of-HasSize m (string s) = length-write_int crates.big_endian 8 _
  long_of-HasSize m null = tt
  long_of-HasSize m (bool b) = tt
  long_of-HasSize m (array l) = tt
  long_of-HasSize m (object l) = tt

  one_byte-HasSize :
      (v : View Value Number)
      → HasSize (some 1) (boolean_of crates v)
        × HasSize (some 1) (byte_of crates v)
        × HasSize (some 1) (char_of crates v)
        × HasSize (some 4) (real_of crates v)
  unfolding boolean_of byte_of char_of real_of
  one_byte-HasSize (number k) = (refl, refl, refl, crates.length-write_f32 _)
  one_byte-HasSize (string s) = (refl, refl, refl, crates.length-write_f32 _)
  one_byte-HasSize null = (tt, tt, tt, tt)
  one_byte-HasSize (bool b) = (refl, tt, tt, tt)
  one_byte-HasSize (array l) = (tt, tt, tt, tt)
  one_byte-HasSize (object l) = (tt, tt, tt, tt)

  and_then-HasSize :
      {A : Type 0} (n : ℕ) (r : Result A String) (k : A → Result (List ℕ) String)
      → ((a : A) → HasSize (some n) (k a))
      → HasSize (some n) (and_then r k)
  and_then-HasSize n (ok a) k h = h a
  and_then-HasSize n (err e) k h = tt

  four_parts-HasSize : (parts : List ℕ) → HasSize (some 4) (four_parts parts)
  unfolding four_parts
  four_parts-HasSize parts = elim (Bool-cases (length parts == 4)) [
    | inl four ↦ rw four (ground arith)
    | inr other ↦ rw other tt
  ]

  -- A codec that has a size writes as many bytes for every value that it takes, of every JSON type.
  pub encode-HasSize : (c : Codec) (value : Value) → HasSize (byte_size c) (encode crates c value)
  unfolding byte_size encode ip_encode bigdecimal_encode long_as_datetime_encode
  encode-HasSize Codec.boolean value = (one_byte-HasSize (view value)).0
  encode-HasSize Codec.byte value = (one_byte-HasSize (view value)).1
  encode-HasSize Codec.char value = (one_byte-HasSize (view value)).2
  encode-HasSize Codec.real value = (one_byte-HasSize (view value)).3
  encode-HasSize Codec.integer value = int_of-HasSize 2 _ (view value)
  encode-HasSize Codec.word value = uint_of-HasSize 2 _ (view value)
  encode-HasSize Codec.dword value = uint_of-HasSize 4 _ (view value)
  encode-HasSize Codec.dint value = int_of-HasSize 4 _ (view value)
  encode-HasSize Codec.lint value = long_of-HasSize _ (view value)
  encode-HasSize Codec.string value = tt
  encode-HasSize Codec.datetime value = tt
  encode-HasSize Codec.wstring value = tt
  encode-HasSize Codec.int_as_big_decimal value = int_of-HasSize 2 _ (view value)
  encode-HasSize Codec.long_as_int value = long_of-HasSize _ (view value)
  encode-HasSize Codec.ip value =
      and_then-HasSize 4 (ok_or (text_of (view value)) _) _
        (λ s. and_then-HasSize 4 (parts_of (split b'.' s)) _ four_parts-HasSize)
  encode-HasSize Codec.bigdecimal value =
      and_then-HasSize 8 (ok_or (text_of (view value)) _) _
        (λ s. and_then-HasSize 8 (crates.parse_f64 s) _ crates.length-write_f64)
  encode-HasSize Codec.long_as_datetime value =
      and_then-HasSize 8 (ok_or (text_of (view value)) _) _ (λ s.
        and_then-HasSize 8 (crates.parse_from_rfc3339 s) _
          (λ dt. length-write_int crates.big_endian 8 _))
