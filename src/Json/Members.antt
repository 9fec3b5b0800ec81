-- ===== src/Json/Members.antt =====
-- Members of JSON objects, as the parsers read them.
use filling_pilot_edge_rs.Common.{ℕ, String, Option, none, some, List}
use filling_pilot_edge_rs.Common.Dict
use filling_pilot_edge_rs.Common.Eq.{String_eq}
use filling_pilot_edge_rs.Common.Int.{ℤ}
use filling_pilot_edge_rs.Common.Maybe.{◌>>=◌}
use filling_pilot_edge_rs.Json.{Json, View, number, array, object, text_of}

-- `value.as_array()`
abbrev pub items_of : {V N : Type 0} → View V N → Option (List V)
items_of (array vs) = some vs
items_of _ = none

abbrev pub number_of : {V N : Type 0} → View V N → Option N
number_of (number n) = some n
number_of _ = none

-- `value.get(key)`
abbrev pub member : {V N : Type 0} → String → View V N → Option V
member key (object fields) = Dict.get key fields
member key _ = none

module _ (json : Json) where
  open json use {Value, view}

  -- `value.get(key).and_then(|v| v.as_str())`
  unfoldable pub str_at : String → Value → Option String
  str_at key value = do v ← member key (view value); text_of (view v)

  unfoldable pub u64_at : String → Value → Option ℕ
  u64_at key value = do v ← member key (view value); n ← number_of (view v); json.as_u64 n

  unfoldable pub i64_at : String → Value → Option ℤ
  i64_at key value = do v ← member key (view value); n ← number_of (view v); json.as_i64 n

  unfoldable pub array_at : String → Value → Option (List Value)
  array_at key value = do v ← member key (view value); items_of (view v)
