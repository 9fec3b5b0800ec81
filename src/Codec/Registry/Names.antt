-- ===== src/Codec/Registry/Names.antt =====
-- The names under which codecs are found.
use filling_pilot_edge_rs.Common.{ℕ, ◌≡◌, refl, Option, none, some}
use filling_pilot_edge_rs.Codec.Property.{PropertyType, as_str, from_lowercase, type_size}
use filling_pilot_edge_rs.Codec.Registry.{Codec, byte_size, lookup}

-- The codec of a property type, by the registry.
abbrev pub codec_of : PropertyType → Option Codec
codec_of PropertyType.boolean = some Codec.boolean
codec_of PropertyType.byte = some Codec.byte
codec_of PropertyType.integer = some Codec.integer
codec_of PropertyType.word = some Codec.word
codec_of PropertyType.dword = some Codec.dword
codec_of PropertyType.dint = some Codec.dint
codec_of PropertyType.lint = some Codec.lint
codec_of PropertyType.real = some Codec.real
codec_of PropertyType.string = some Codec.string
codec_of PropertyType.wstring = some Codec.wstring
codec_of PropertyType.datetime = some Codec.datetime
codec_of PropertyType.bigdecimal = some Codec.bigdecimal
codec_of PropertyType.ip_address = some Codec.ip
codec_of PropertyType.long = none
codec_of PropertyType.long_as_int = none
codec_of PropertyType.long_as_datetime = none
codec_of PropertyType.integer_as_big_decimal = none

-- The size of a property of a codec is the one of its type.
abbrev pub SizesAgree : Option Codec → ℕ → Type 0
SizesAgree none n = Unit
SizesAgree (some c) n = elim (byte_size c) [ none ↦ Unit | some k ↦ k ≡ n ]

-- Each of thirteen property types finds its codec, which has the size of the type if it has one; the
-- four types long, longasint, longasdatetime and integerasbigdecimal find none.
pub lookup-as_str :
    (t : PropertyType) → (lookup (as_str t) ≡ codec_of t) × SizesAgree (codec_of t) (type_size t)
unfolding lookup as_str byte_size type_size
lookup-as_str PropertyType.boolean = (refl, refl)
lookup-as_str PropertyType.byte = (refl, refl)
lookup-as_str PropertyType.integer = (refl, refl)
lookup-as_str PropertyType.word = (refl, refl)
lookup-as_str PropertyType.dword = (refl, refl)
lookup-as_str PropertyType.dint = (refl, refl)
lookup-as_str PropertyType.lint = (refl, refl)
lookup-as_str PropertyType.real = (refl, refl)
lookup-as_str PropertyType.string = (refl, tt)
lookup-as_str PropertyType.wstring = (refl, tt)
lookup-as_str PropertyType.datetime = (refl, tt)
lookup-as_str PropertyType.bigdecimal = (refl, refl)
lookup-as_str PropertyType.ip_address = (refl, refl)
lookup-as_str PropertyType.long = (refl, tt)
lookup-as_str PropertyType.long_as_int = (refl, tt)
lookup-as_str PropertyType.long_as_datetime = (refl, tt)
lookup-as_str PropertyType.integer_as_big_decimal = (refl, tt)

-- A property type is read back from its text.
pub from_lowercase-as_str : (t : PropertyType) → from_lowercase (as_str t) ≡ t
unfolding from_lowercase as_str
from_lowercase-as_str PropertyType.boolean = refl
from_lowercase-as_str PropertyType.byte = refl
from_lowercase-as_str PropertyType.integer = refl
from_lowercase-as_str PropertyType.word = refl
from_lowercase-as_str PropertyType.dword = refl
from_lowercase-as_str PropertyType.dint = refl
from_lowercase-as_str PropertyType.lint = refl
from_lowercase-as_str PropertyType.real = refl
from_lowercase-as_str PropertyType.string = refl
from_lowercase-as_str PropertyType.wstring = refl
from_lowercase-as_str PropertyType.datetime = refl
from_lowercase-as_str PropertyType.bigdecimal = refl
from_lowercase-as_str PropertyType.ip_address = refl
from_lowercase-as_str PropertyType.long = refl
from_lowercase-as_str PropertyType.long_as_int = refl
from_lowercase-as_str PropertyType.long_as_datetime = refl
from_lowercase-as_str PropertyType.integer_as_big_decimal = refl
