-- ===== src/Codec/Numbers.antt =====
-- The codecs of Booleans, integers and floats, and those that read integers otherwise. A number that
-- does not fit a cast is cut to the low bits; a text that does not parse is 0.
pub mod RoundTrip
use filling_pilot_edge_rs.Common.{
  ℕ, ◌%◌, ◌^◌, ◌/◌, Bool, true, false, ◌||◌, not, ◌==◌, String, Option, none, some, List, [], ◌∷◌,
  ltb, str_eq, unwrap_or, length, get_or, is_empty, if◌then◌else◌,
}
use filling_pilot_edge_rs.Common.Int.{ℤ, pos, negsuc, signed, pattern_of}
use filling_pilot_edge_rs.Common.Text.{parse_unsigned, parse_signed, show_ℤ}
use filling_pilot_edge_rs.Error.{Result, ok, err}
use filling_pilot_edge_rs.Json.{View, null, bool, number, string, array, object}
use filling_pilot_edge_rs.Codec.Crates.{Crates}

-- `b as u8`
abbrev pub bit : Bool → ℕ
bit true = 1
bit false = 0

-- `z as iN`, for N bits in n bytes
abbrev pub narrow : ℕ → ℤ → ℤ
narrow n z = signed (256 ^ n / 2) (pattern_of (256 ^ n) z)

module _ (crates : Crates) where
  open crates use {json, big_endian, to_lowercase}
  open json use {Value, Number, view, make}

  unfoldable pub boolean_of : View Value Number → Result (List ℕ) String
  boolean_of (bool v) = ok (bit v ∷ [])
  boolean_of (number n) =
      ok (bit (crates.is_nonzero (unwrap_or (json.as_f64 n) crates.zero_f64)) ∷ [])
  boolean_of (string s) =
      let t = to_lowercase s in ok (bit (str_eq t "true" || str_eq t "1" || str_eq t "on") ∷ [])
  boolean_of _ = err "Invalid boolean"

  unfoldable pub boolean_decode : List ℕ → Result Value String
  boolean_decode bytes =
      if is_empty bytes then err "Empty" else ok (make (bool (not (get_or bytes 0 0 == 0))))

  unfoldable pub byte_of : View Value Number → Result (List ℕ) String
  byte_of (number n) = ok (unwrap_or (json.as_u64 n) 0 % 256 ∷ [])
  byte_of (string s) = ok (unwrap_or (parse_unsigned 256 s) 0 ∷ [])
  byte_of _ = err "Invalid byte"

  unfoldable pub byte_decode : List ℕ → Result Value String
  byte_decode bytes =
      if is_empty bytes then err "Empty" else ok (make (number (json.from_u64 (get_or bytes 0 0))))

  -- An unsigned number of n bytes.
  unfoldable pub uint_of : ℕ → String → View Value Number → Result (List ℕ) String
  uint_of n message (number k) =
      ok (big_endian.write_uint n (unwrap_or (json.as_u64 k) 0 % 256 ^ n))
  uint_of n message (string s) =
      ok (big_endian.write_uint n (unwrap_or (parse_unsigned (256 ^ n) s) 0))
  uint_of n message _ = err message

  unfoldable pub uint_decode : ℕ → List ℕ → Result Value String
  uint_decode n bytes =
      if ltb (length bytes) n
      then err "Not enough"
      else ok (make (number (json.from_u64 (big_endian.read_uint n bytes))))

  -- A signed number of n bytes.
  unfoldable pub int_of : ℕ → String → View Value Number → Result (List ℕ) String
  int_of n message (number k) =
      ok (big_endian.write_int n (narrow n (unwrap_or (json.as_i64 k) (pos 0))))
  int_of n message (string s) =
      ok (big_endian.write_int n (unwrap_or (parse_signed (256 ^ n / 2) s) (pos 0)))
  int_of n message _ = err message

  unfoldable pub int_decode : ℕ → List ℕ → Result Value String
  int_decode n bytes =
      if ltb (length bytes) n
      then err "Not enough"
      else ok (make (number (json.from_i64 (big_endian.read_int n bytes))))

  -- An i64, which needs no cast.
  unfoldable pub long_of : String → View Value Number → Result (List ℕ) String
  long_of message (number k) = ok (big_endian.write_int 8 (unwrap_or (json.as_i64 k) (pos 0)))
  long_of message (string s) =
      ok (big_endian.write_int 8 (unwrap_or (parse_signed (2 ^ 63) s) (pos 0)))
  long_of message _ = err message

  unfoldable pub real_of : View Value Number → Result (List ℕ) String
  real_of (number k) =
      ok (crates.write_f32 (crates.to_f32 (unwrap_or (json.as_f64 k) crates.zero_f64)))
  real_of (string s) = ok (crates.write_f32 (unwrap_or (crates.parse_f32 s) crates.zero_f32))
  real_of _ = err "Invalid real"

  unfoldable pub real_decode : List ℕ → Result Value String
  real_decode bytes =
      if ltb (length bytes) 4
      then err "Not enough"
      else ok (
          make (
            number (
              unwrap_or (json.from_f64 (crates.to_f64 (crates.read_f32 bytes))) (json.from_u64 0))))

  unfoldable pub decimal_decode : List ℕ → Result Value String
  decimal_decode bytes =
      if ltb (length bytes) 2
      then err "Not enough"
      else ok (make (string (show_ℤ (big_endian.read_int 2 bytes))))

  unfoldable pub long_as_int_decode : List ℕ → Result Value String
  long_as_int_decode bytes =
      if ltb (length bytes) 8
      then err "Not enough"
      else ok (make (number (json.from_i64 (narrow 2 (big_endian.read_int 8 bytes)))))

  -- The codecs, by these.
  abbrev pub integer_encode : Value → Result (List ℕ) String
  integer_encode value = int_of 2 "Invalid int" (view value)

  abbrev pub integer_decode : List ℕ → Result Value String
  integer_decode bytes = int_decode 2 bytes

  abbrev pub word_encode : Value → Result (List ℕ) String
  word_encode value = uint_of 2 "Invalid word" (view value)

  abbrev pub word_decode : List ℕ → Result Value String
  word_decode bytes = uint_decode 2 bytes

  abbrev pub dword_encode : Value → Result (List ℕ) String
  dword_encode value = uint_of 4 "Invalid dword" (view value)

  abbrev pub dword_decode : List ℕ → Result Value String
  dword_decode bytes = uint_decode 4 bytes

  abbrev pub dint_encode : Value → Result (List ℕ) String
  dint_encode value = int_of 4 "Invalid dint" (view value)

  abbrev pub dint_decode : List ℕ → Result Value String
  dint_decode bytes = int_decode 4 bytes

  abbrev pub lint_encode : Value → Result (List ℕ) String
  lint_encode value = long_of "Invalid lint" (view value)

  abbrev pub lint_decode : List ℕ → Result Value String
  lint_decode bytes = int_decode 8 bytes

  abbrev pub int_as_big_decimal_encode : Value → Result (List ℕ) String
  int_as_big_decimal_encode value = int_of 2 "Invalid intAsBigDecimal" (view value)

  abbrev pub long_as_int_encode : Value → Result (List ℕ) String
  long_as_int_encode value = long_of "Invalid longAsInt" (view value)
