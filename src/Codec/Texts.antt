-- ===== src/Codec/Texts.antt =====
-- The codecs of texts, times and addresses.
pub mod RoundTrip
use Prim.Native.Char.{code}
use Prim.Native.String.{◌++◌ as ◌<>◌}
use filling_pilot_edge_rs.Common.{
  ℕ, zero, suc, ◌+◌, ◌*◌, ◌/◌, ◌%◌, ◌^◌, Bool, not, ◌==◌, String, Option, none, some, List, [], ◌∷◌,
  ◌++◌, ltb, length, get_or, take, drop, is_empty, unwrap_or, if◌then◌else◌,
}
use filling_pilot_edge_rs.Common.Bytes.{to_be}
use filling_pilot_edge_rs.Common.Int.{ℤ, pos, negsuc, pattern_of, minus, rem, quot}
use filling_pilot_edge_rs.Common.Text.{
  parse_unsigned, split, show_ℕ, show_ℤ, show_two, singleton, char_of_byte, encode_utf16,
}
use filling_pilot_edge_rs.Error.{Result, ok, err}
use filling_pilot_edge_rs.Json.{View, null, bool, number, string, array, object, text_of}
use filling_pilot_edge_rs.Codec.Crates.{Crates}

-- `?` on a result, and `ok_or`.
abbrev pub and_then : {A B : Type 0} → Result A String → (A → Result B String) → Result B String
and_then (ok a) k = k a
and_then (err e) k = err e

abbrev pub ok_or : {A : Type 0} → Option A → String → Result A String
ok_or none e = err e
ok_or (some a) e = ok a

-- `z as u8`
abbrev pub low_byte : ℤ → ℕ
low_byte z = pattern_of 256 z

-- `s.split('.').map(parse).collect()`
unfoldable pub parts_of : List String → Result (List ℕ) String
parts_of [] = ok []
parts_of (p ∷ ps) =
    and_then (ok_or (parse_unsigned 256 p) "Bad IP")
      (λ b. and_then (parts_of ps) (λ bs. ok (b ∷ bs)))

unfoldable pub four_parts : List ℕ → Result (List ℕ) String
four_parts parts = if length parts == 4 then ok parts else err "Invalid IP"

-- The first character of a text, as a byte.
unfoldable pub first_byte : String → ℕ
first_byte String.[] = b' '
first_byte (String.◌∷◌ c s) = code c % 256

-- `flat_map(|cp| cp.to_be_bytes())`
unfoldable pub unit_bytes : List ℕ → List ℕ
unit_bytes [] = []
unit_bytes (u ∷ us) = to_be 2 u ++ unit_bytes us

unfoldable pub wide_text : String → List ℕ
unfolding unit_bytes
wide_text s =
    let utf16 = unit_bytes (encode_utf16 s) in
    let char_count = length utf16 / 2 in 254 ∷ 0 ∷ char_count % 256 ∷ char_count / 256 % 256 ∷ utf16

-- The loop over `i` that fills `utf16_buf`, from `i` on.
unfoldable pub units_from : ℕ → ℕ → List ℕ → List ℕ
units_from i zero bytes = []
units_from i (suc k) bytes =
    (get_or bytes (2 + i * 2) 0 * 256 + get_or bytes (2 + i * 2 + 1) 0) ∷ units_from (suc i) k bytes

module _ (crates : Crates) where
  open crates use {json, big_endian, Moment}
  open json use {Value, Number, view, make}

  -- The bytes of a text, behind its capacity and its length.
  unfoldable pub text_bytes : List ℕ → Result (List ℕ) String
  text_bytes bytes =
      if ltb 254 (length bytes) then err "Too long" else ok (254 ∷ length bytes % 256 ∷ bytes)

  unfoldable pub string_encode : Value → Result (List ℕ) String
  unfolding text_bytes
  string_encode value =
      text_bytes (crates.into_bytes (unwrap_or (text_of (view value)) (json.to_text value)))

  unfoldable pub string_decode : List ℕ → Result Value String
  string_decode bytes =
      let len = get_or bytes 1 0 in
      if ltb (length bytes) 2
      then err "Header"
      else if ltb (length bytes) (2 + len)
      then err "Truncated"
      else and_then (crates.from_utf8 (take len (drop 2 bytes))) (λ s. ok (make (string s)))

  unfoldable pub moment_bytes : Moment → List ℕ
  moment_bytes dt =
      low_byte (rem (minus (crates.year dt) 2000) 100)
      ∷ crates.month dt % 256
      ∷ crates.day dt % 256
      ∷ crates.hour dt % 256
      ∷ crates.minute dt % 256
      ∷ crates.second dt % 256
      ∷ (crates.num_days_from_sunday dt + 1) % 256
      ∷ low_byte (quot (rem (crates.timestamp_millis dt) 1000) 10)
      ∷ []

  unfoldable pub datetime_encode : Value → Result (List ℕ) String
  unfolding moment_bytes
  datetime_encode value =
      and_then (ok_or (text_of (view value)) "Invalid datetime")
        (λ s. and_then (crates.parse_from_rfc3339 s) (λ dt. ok (moment_bytes dt)))

  unfoldable pub datetime_text : List ℕ → String
  datetime_text bytes =
      show_ℕ (2000 + get_or bytes 0 0)
      <> ("-"
          <> (show_two (get_or bytes 1 0)
              <> ("-"
                  <> (show_two (get_or bytes 2 0)
                      <> ("T"
                          <> (show_two (get_or bytes 3 0)
                              <> (":"
                                  <> (show_two (get_or bytes 4 0)
                                      <> (":" <> (show_two (get_or bytes 5 0) <> "Z"))))))))))

  unfoldable pub datetime_decode : List ℕ → Result Value String
  unfolding datetime_text
  datetime_decode bytes =
      if ltb (length bytes) 8 then err "Not enough" else ok (make (string (datetime_text bytes)))

  unfoldable pub bigdecimal_encode : Value → Result (List ℕ) String
  bigdecimal_encode value =
      and_then (ok_or (text_of (view value)) "Need string")
        (λ s. and_then (crates.parse_f64 s) (λ v. ok (crates.write_f64 v)))

  unfoldable pub bigdecimal_decode : List ℕ → Result Value String
  bigdecimal_decode bytes =
      if ltb (length bytes) 8
      then err "Not enough"
      else ok (make (string (crates.show_f64 (crates.read_f64 bytes))))

  unfoldable pub ip_encode : Value → Result (List ℕ) String
  unfolding parts_of four_parts
  ip_encode value =
      and_then (ok_or (text_of (view value)) "IP must be string")
        (λ s. and_then (parts_of (split b'.' s)) four_parts)

  unfoldable pub ip_decode : List ℕ → Result Value String
  ip_decode bytes =
      if ltb (length bytes) 4
      then err "Not enough"
      else ok (
          make (
            string (
              show_ℕ (get_or bytes 0 0)
              <> ("."
                  <> (show_ℕ (get_or bytes 1 0)
                      <> ("."
                          <> (show_ℕ (get_or bytes 2 0) <> ("." <> show_ℕ (get_or bytes 3 0)))))))))

  unfoldable pub char_of : View Value Number → Result (List ℕ) String
  unfolding first_byte
  char_of (string s) = ok (first_byte s ∷ [])
  char_of (number n) = ok (unwrap_or (json.as_u64 n) 0 % 256 ∷ [])
  char_of _ = err "Invalid char"

  unfoldable pub char_decode : List ℕ → Result Value String
  char_decode bytes =
      if is_empty bytes
      then err "Empty"
      else ok (make (string (singleton (char_of_byte (get_or bytes 0 0)))))

  unfoldable pub wstring_encode : Value → Result (List ℕ) String
  unfolding wide_text
  wstring_encode value =
      and_then (ok_or (text_of (view value)) "WString needs string") (λ s. ok (wide_text s))

  unfoldable pub wstring_decode : List ℕ → Result Value String
  unfolding units_from
  wstring_decode bytes =
      let len = get_or bytes 0 0 + get_or bytes 1 0 * 256 in
      if ltb (length bytes) 4
      then err "WString header too short"
      else if ltb (length bytes) (4 + len * 2)
      then err "WString truncated"
      else ok (make (string (crates.from_utf16_lossy (units_from 0 len bytes))))

  unfoldable pub long_as_datetime_encode : Value → Result (List ℕ) String
  long_as_datetime_encode value =
      and_then (ok_or (text_of (view value)) "Need datetime string") (λ s.
        and_then (crates.parse_from_rfc3339 s)
          (λ dt. ok (big_endian.write_int 8 (crates.timestamp_millis dt))))

  -- `(millis % 1000) as u32 * 1_000_000`, which wraps around in a release build.
  unfoldable pub long_as_datetime_decode : List ℕ → Result Value String
  long_as_datetime_decode bytes =
      let millis = big_endian.read_int 8 bytes in
      let remaining = pattern_of (2 ^ 32) (rem millis 1000) in
      if ltb (length bytes) 8
      then err "Not enough"
      else and_then
          (ok_or (crates.from_timestamp (quot millis 1000) (remaining * 1000000 % 2 ^ 32))
            ("Invalid timestamp: " <> show_ℤ millis))
          (λ datetime. ok (make (string (crates.format_utc datetime))))
