-- ===== src/Codec/Registry.antt =====
-- The codecs under one type, with their registry (`CodecRegistry`).
pub mod Sizes
pub mod Names
use filling_pilot_edge_rs.Common.{ℕ, String, Option, none, some, List, [], ◌∷◌}
use filling_pilot_edge_rs.Common.Dict
use filling_pilot_edge_rs.Common.Dict.{Dict}
use filling_pilot_edge_rs.Common.Eq.{String_eq}
use filling_pilot_edge_rs.Error.{Result}
use filling_pilot_edge_rs.Codec.Crates.{Crates}
use filling_pilot_edge_rs.Codec.Numbers.{
  boolean_of, boolean_decode, byte_of, byte_decode, uint_of, uint_decode, int_of, int_decode,
  long_of, real_of, real_decode, decimal_decode, long_as_int_decode, integer_encode, integer_decode,
  word_encode, word_decode, dword_encode, dword_decode, dint_encode, dint_decode, lint_encode,
  lint_decode, int_as_big_decimal_encode, long_as_int_encode,
}
use filling_pilot_edge_rs.Codec.Texts.{
  string_encode, string_decode, datetime_encode, datetime_decode, bigdecimal_encode,
  bigdecimal_decode, ip_encode, ip_decode, char_of, char_decode, wstring_encode, wstring_decode,
  long_as_datetime_encode, long_as_datetime_decode,
}

-- The implementations of the trait `Codec`.
pub data Codec : Type 0 where
  boolean byte integer word dword dint lint real string datetime : Codec
  bigdecimal ip char wstring int_as_big_decimal long_as_int long_as_datetime : Codec

-- `Codec::name`
unfoldable pub name : Codec → String
name Codec.boolean = "boolean"
name Codec.byte = "byte"
name Codec.integer = "integer"
name Codec.word = "word"
name Codec.dword = "dword"
name Codec.dint = "dint"
name Codec.lint = "lint"
name Codec.real = "real"
name Codec.string = "string"
name Codec.datetime = "datetime"
name Codec.bigdecimal = "bigdecimal"
name Codec.ip = "ip"
name Codec.char = "char"
name Codec.wstring = "wstring"
name Codec.int_as_big_decimal = "intAsBigDecimal"
name Codec.long_as_int = "longAsInt"
name Codec.long_as_datetime = "longAsDateTime"

-- `Codec::byte_size`
unfoldable pub byte_size : Codec → Option ℕ
byte_size Codec.boolean = some 1
byte_size Codec.byte = some 1
byte_size Codec.integer = some 2
byte_size Codec.word = some 2
byte_size Codec.dword = some 4
byte_size Codec.dint = some 4
byte_size Codec.lint = some 8
byte_size Codec.real = some 4
byte_size Codec.string = none
byte_size Codec.datetime = none
byte_size Codec.bigdecimal = some 8
byte_size Codec.ip = some 4
byte_size Codec.char = some 1
byte_size Codec.wstring = none
byte_size Codec.int_as_big_decimal = some 2
byte_size Codec.long_as_int = some 8
byte_size Codec.long_as_datetime = some 8

module _ (crates : Crates) where
  open crates use {json}
  open json use {Value, view}

  -- `Codec::encode`
  unfoldable pub encode : Codec → Value → Result (List ℕ) String
  unfolding boolean_of byte_of uint_of int_of long_of real_of char_of
  encode Codec.boolean value = boolean_of crates (view value)
  encode Codec.byte value = byte_of crates (view value)
  encode Codec.integer value = integer_encode crates value
  encode Codec.word value = word_encode crates value
  encode Codec.dword value = dword_encode crates value
  encode Codec.dint value = dint_encode crates value
  encode Codec.lint value = lint_encode crates value
  encode Codec.real value = real_of crates (view value)
  encode Codec.string value = string_encode crates value
  encode Codec.datetime value = datetime_encode crates value
  encode Codec.bigdecimal value = bigdecimal_encode crates value
  encode Codec.ip value = ip_encode crates value
  encode Codec.char value = char_of crates (view value)
  encode Codec.wstring value = wstring_encode crates value
  encode Codec.int_as_big_decimal value = int_as_big_decimal_encode crates value
  encode Codec.long_as_int value = long_as_int_encode crates value
  encode Codec.long_as_datetime value = long_as_datetime_encode crates value

  -- `Codec::decode`
  unfoldable pub decode : Codec → List ℕ → Result Value String
  unfolding boolean_decode byte_decode uint_decode int_decode real_decode decimal_decode
      long_as_int_decode char_decode
  decode Codec.boolean bytes = boolean_decode crates bytes
  decode Codec.byte bytes = byte_decode crates bytes
  decode Codec.integer bytes = integer_decode crates bytes
  decode Codec.word bytes = word_decode crates bytes
  decode Codec.dword bytes = dword_decode crates bytes
  decode Codec.dint bytes = dint_decode crates bytes
  decode Codec.lint bytes = lint_decode crates bytes
  decode Codec.real bytes = real_decode crates bytes
  decode Codec.string bytes = string_decode crates bytes
  decode Codec.datetime bytes = datetime_decode crates bytes
  decode Codec.bigdecimal bytes = bigdecimal_decode crates bytes
  decode Codec.ip bytes = ip_decode crates bytes
  decode Codec.char bytes = char_decode crates bytes
  decode Codec.wstring bytes = wstring_decode crates bytes
  decode Codec.int_as_big_decimal bytes = decimal_decode crates bytes
  decode Codec.long_as_int bytes = long_as_int_decode crates bytes
  decode Codec.long_as_datetime bytes = long_as_datetime_decode crates bytes

-- The entries that `CodecRegistry::default` inserts.
abbrev codecs : Dict String Codec
codecs =
    ("boolean", Codec.boolean)
    ∷ ("byte", Codec.byte)
    ∷ ("integer", Codec.integer)
    ∷ ("word", Codec.word)
    ∷ ("dword", Codec.dword)
    ∷ ("dint", Codec.dint)
    ∷ ("lint", Codec.lint)
    ∷ ("real", Codec.real)
    ∷ ("string", Codec.string)
    ∷ ("datetime", Codec.datetime)
    ∷ ("bigdecimal", Codec.bigdecimal)
    ∷ ("ip", Codec.ip)
    ∷ ("char", Codec.char)
    ∷ ("wstring", Codec.wstring)
    ∷ ("intAsBigDecimal", Codec.int_as_big_decimal)
    ∷ ("longAsInt", Codec.long_as_int)
    ∷ ("longAsDateTime", Codec.long_as_datetime)
    ∷ []

-- `CodecRegistry::get`
unfoldable pub lookup : String → Option Codec
unfolding Dict.get
lookup codec_name = Dict.get codec_name codecs
