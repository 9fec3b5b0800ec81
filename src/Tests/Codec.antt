-- ===== src/Tests/Codec.antt =====
-- Codecs and data blocks at JSON trees, with ASCII for UTF-8.
use Prim.Native.Char.{code}
use filling_pilot_edge_rs.Common.{
  ℕ, ◌/◌, ◌^◌, ◌≡◌, refl, String, true, none, some, List, [], ◌∷◌, arith, take, replicate,
}
use filling_pilot_edge_rs.Common.Bytes.{from_be, to_be}
use filling_pilot_edge_rs.Common.Dict
use filling_pilot_edge_rs.Common.Dict.{Dict}
use filling_pilot_edge_rs.Common.Eq.{String_eq}
use filling_pilot_edge_rs.Common.Int.{ℤ, pos, negsuc, signed, pattern_of}
use filling_pilot_edge_rs.Common.Text.{char_of_byte, encode_utf16}
use filling_pilot_edge_rs.Error.{ok, err}
use filling_pilot_edge_rs.Codec.Crates.{Crates, ByteOrder}
use filling_pilot_edge_rs.Codec.Property.{
  PropertyType, DataBlockProperty, DataBlockDefinition, as_str, size_of, type_size,
}
use filling_pilot_edge_rs.Codec.Registry.{Codec, byte_size, lookup, encode, decode}
use filling_pilot_edge_rs.Codec.Numbers.RoundTrip.{decode-encode_signed}
use filling_pilot_edge_rs.Codec.Texts.{
  and_then, string_encode, string_decode, wstring_encode, wstring_decode,
}
use filling_pilot_edge_rs.Codec.Texts.RoundTrip.{decode-encode_string, decode-encode_wstring}
use filling_pilot_edge_rs.Codec.Block.{decode_with, encode_properties, encode_block}
use filling_pilot_edge_rs.Codec.Block.Arrays.{OneItem, decode_with-OneItem}
use filling_pilot_edge_rs.Codec.Block.Encoding.{Completes, encode_block-Completes}
use filling_pilot_edge_rs.Codec.Block.Panics.{short_string_panics}
use filling_pilot_edge_rs.Tests.Tree.{Tree, text, integer, tree_json}

abbrev order : ByteOrder
order = record {
  read_uint = λ n bytes. from_be 0 (take n bytes);
  read_int = λ n bytes. signed (256 ^ n / 2) (from_be 0 (take n bytes));
  write_uint = to_be;
  write_int = λ n z. to_be n (pattern_of (256 ^ n) z);
  read_uint-eq = λ n bytes h. refl;
  read_int-eq = λ n bytes h. refl;
  write_uint-eq = λ n v h. refl;
  write_int-eq = λ n z. refl;
}

abbrev codes : String → List ℕ
codes String.[] = []
codes (String.◌∷◌ c s) = code c ∷ codes s

abbrev ascii : List ℕ → String
ascii [] = ""
ascii (b ∷ bs) = String.◌∷◌ (char_of_byte b) (ascii bs)

abbrev pub crates : Crates
crates = record {
  json = tree_json;
  big_endian = order;
  F32 = ℤ;
  zero_f32 = pos 0;
  zero_f64 = pos 0;
  is_nonzero = λ z. true;
  to_f32 = λ z. z;
  to_f64 = λ z. z;
  parse_f32 = λ s. none;
  parse_f64 = λ s. err "invalid float literal";
  show_f64 = λ z. "0";
  read_f32 = λ bytes. signed (2 ^ 31) (from_be 0 bytes);
  read_f64 = λ bytes. signed (2 ^ 63) (from_be 0 bytes);
  write_f32 = λ z. 0 ∷ 0 ∷ 0 ∷ 0 ∷ [];
  write_f64 = λ z. 0 ∷ 0 ∷ 0 ∷ 0 ∷ 0 ∷ 0 ∷ 0 ∷ 0 ∷ [];
  length-write_f32 = λ z. refl;
  length-write_f64 = λ z. refl;
  to_lowercase = λ s. s;
  into_bytes = codes;
  from_utf8 = λ bytes. ok (ascii bytes);
  from_utf16_lossy = ascii;
  Moment = ℤ;
  parse_from_rfc3339 = λ s. err "premature end of input";
  year = λ m. pos 2026;
  month = λ m. 1;
  day = λ m. 1;
  hour = λ m. 0;
  minute = λ m. 0;
  second = λ m. 0;
  num_days_from_sunday = λ m. 4;
  timestamp_millis = λ m. m;
  from_timestamp = λ secs nanos. some secs;
  format_utc = λ m. "1970-01-01T00:00:00Z";
}

abbrev level : DataBlockProperty
level = record {
  name = "level";
  property_type = PropertyType.integer;
  offset = 2;
  count = 1;
  byte_size = none;
}

abbrev label : DataBlockProperty
label = record level { name = "label"; property_type = PropertyType.string; offset = 0 }

abbrev pub definition : DataBlockDefinition
definition = record {
  db_number = 5;
  name = "tank";
  plc_ip = none;
  properties = level ∷ [];
  total_size = 4;
}

abbrev pub values : Dict String Tree
values = ("level", integer (negsuc 1)) ∷ ("label", text "abc") ∷ []

decode-encode_signed_example :
    and_then (encode crates Codec.integer (integer (negsuc 4))) (decode crates Codec.integer)
    ≡ ok (integer (negsuc 4))
decode-encode_signed_example =
    decode-encode_signed crates Codec.integer 2 (negsuc 4) refl (omega arith)

decode-encode_string_example :
    and_then (string_encode crates (text "abc")) (string_decode crates) ≡ ok (text "abc")
decode-encode_string_example = decode-encode_string crates "abc" (unfold char_of_byte in refl)

decode-encode_wstring_example :
    and_then (wstring_encode crates (text "abc")) (wstring_decode crates) ≡ err "WString truncated"
decode-encode_wstring_example =
    decode-encode_wstring crates "abc" (unfold encode_utf16 in (omega arith))

abbrev levels : DataBlockProperty
levels = record level { count = 3; offset = 2 }

decode_with-OneItem_example :
    (after : Dict String Tree) × (decode_with crates
        (some Codec.integer)
        levels
        (0 ∷ 1 ∷ 0 ∷ 2 ∷ 0 ∷ 3 ∷ 0 ∷ 4 ∷ [])
        []
      ≡ some after)
    × OneItem crates "level" [] after
decode_with-OneItem_example =
    decode_with-OneItem crates Codec.integer levels (0 ∷ 1 ∷ 0 ∷ 2 ∷ 0 ∷ 3 ∷ 0 ∷ 4 ∷ []) [] refl
      (unfold size_of type_size in (omega arith)) (unfold size_of type_size in (omega arith))
      (unfold size_of type_size in (omega arith))

encode_block-Completes_example : Completes 4 (encode_block crates definition values)
encode_block-Completes_example =
    encode_block-Completes crates definition values
      ((unfold lookup as_str size_of byte_size type_size in (refl, omega arith)), tt)

short_string_panics_example : encode_properties crates (label ∷ []) values (replicate 256 0) ≡ none
short_string_panics_example =
    short_string_panics crates label [] values (replicate 256 0) "abc" refl refl refl (omega arith)
      (unfold Dict.get in refl) (omega arith)
