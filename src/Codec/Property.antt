-- ===== src/Codec/Property.antt =====
-- The types of properties, and the definition of a data block (src/codec/data_block.rs).
use filling_pilot_edge_rs.Common.{
  ℕ, ◌+◌, ◌*◌, usize, String, ◌||◌, Option, List, [], ◌∷◌, str_eq, unwrap_or, if◌then◌else◌,
}

pub data PropertyType : Type 0 where
  boolean byte integer word dword dint lint real string wstring datetime : PropertyType
  bigdecimal ip_address long long_as_int long_as_datetime integer_as_big_decimal : PropertyType

-- `PropertyType::as_str`
unfoldable pub as_str : PropertyType → String
as_str PropertyType.boolean = "boolean"
as_str PropertyType.byte = "byte"
as_str PropertyType.integer = "integer"
as_str PropertyType.word = "word"
as_str PropertyType.dword = "dword"
as_str PropertyType.dint = "dint"
as_str PropertyType.lint = "lint"
as_str PropertyType.real = "real"
as_str PropertyType.string = "string"
as_str PropertyType.wstring = "wstring"
as_str PropertyType.datetime = "datetime"
as_str PropertyType.bigdecimal = "bigdecimal"
as_str PropertyType.ip_address = "ip"
as_str PropertyType.long = "long"
as_str PropertyType.long_as_int = "longasint"
as_str PropertyType.long_as_datetime = "longasdatetime"
as_str PropertyType.integer_as_big_decimal = "integerasbigdecimal"

-- `PropertyType::from_str` of the text in lower case
unfoldable pub from_lowercase : String → PropertyType
from_lowercase s =
    if str_eq s "boolean" || str_eq s "bool"
    then PropertyType.boolean
    else if str_eq s "byte"
    then PropertyType.byte
    else if str_eq s "integer" || str_eq s "int"
    then PropertyType.integer
    else if str_eq s "word"
    then PropertyType.word
    else if str_eq s "dword"
    then PropertyType.dword
    else if str_eq s "dint"
    then PropertyType.dint
    else if str_eq s "lint"
    then PropertyType.lint
    else if str_eq s "real" || str_eq s "float"
    then PropertyType.real
    else if str_eq s "string"
    then PropertyType.string
    else if str_eq s "wstring"
    then PropertyType.wstring
    else if str_eq s "datetime" || str_eq s "date"
    then PropertyType.datetime
    else if str_eq s "bigdecimal"
    then PropertyType.bigdecimal
    else if str_eq s "ip" || str_eq s "ipaddress"
    then PropertyType.ip_address
    else if str_eq s "long"
    then PropertyType.long
    else if str_eq s "longasint"
    then PropertyType.long_as_int
    else if str_eq s "longasdatetime"
    then PropertyType.long_as_datetime
    else if str_eq s "integerasbigdecimal"
    then PropertyType.integer_as_big_decimal
    else PropertyType.byte

-- `DataBlockDefinition::type_size`
unfoldable pub type_size : PropertyType → ℕ
type_size PropertyType.boolean = 1
type_size PropertyType.byte = 1
type_size PropertyType.integer = 2
type_size PropertyType.word = 2
type_size PropertyType.dword = 4
type_size PropertyType.dint = 4
type_size PropertyType.lint = 8
type_size PropertyType.real = 4
type_size PropertyType.string = 256
type_size PropertyType.wstring = 512
type_size PropertyType.datetime = 8
type_size PropertyType.bigdecimal = 8
type_size PropertyType.ip_address = 4
type_size PropertyType.long = 8
type_size PropertyType.long_as_int = 4
type_size PropertyType.long_as_datetime = 8
type_size PropertyType.integer_as_big_decimal = 8

pub record DataBlockProperty : Type 0 where
  pub name : String
  pub property_type : PropertyType
  pub offset : ℕ
  pub count : ℕ
  pub byte_size : Option ℕ

pub record DataBlockDefinition : Type 0 where
  pub db_number : ℕ
  pub name : String
  pub plc_ip : Option String
  pub properties : List DataBlockProperty
  pub total_size : ℕ

unfoldable pub size_of : DataBlockProperty → ℕ
unfolding type_size
size_of p = unwrap_or p.byte_size (type_size p.property_type)

unfoldable pub sum_sizes : List DataBlockProperty → ℕ
unfolding size_of
sum_sizes [] = 0
sum_sizes (p ∷ ps) = usize (usize (size_of p * p.count) + sum_sizes ps)

unfoldable pub calculate_size : DataBlockDefinition → DataBlockDefinition
unfolding sum_sizes
calculate_size d = record d { total_size = sum_sizes d.properties }
