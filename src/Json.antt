-- ===== src/Json.antt =====
-- JSON values and their numbers, as the code uses them (the serde_json crate). A value is seen through
-- its variant, and made from it.
pub mod Members
pub mod Derive
use filling_pilot_edge_rs.Common.{ℕ, ◌<◌, ◌^◌, ◌≡◌, Bool, String, Option, none, some, List}
use filling_pilot_edge_rs.Common.Dict.{Dict}
use filling_pilot_edge_rs.Common.Int.{ℤ, InSigned}

pub data View (V N : Type 0) : Type 0 where
  null : View V N
  bool : Bool → View V N
  number : N → View V N
  string : String → View V N
  array : List V → View V N
  object : Dict String V → View V N

pub record Json : Type 1 where
  pub Value : Type 0
  pub Number : Type 0
  pub F64 : Type 0
  pub view : Value → View Value Number
  pub make : View Value Number → Value
  pub view-make : (v : View Value Number) → view (make v) ≡ v
  pub to_text : Value → String  -- `Value::to_string`
  pub as_u64 : Number → Option ℕ
  pub as_i64 : Number → Option ℤ
  pub as_f64 : Number → Option F64
  pub from_u64 : ℕ → Number
  pub from_i64 : ℤ → Number
  pub from_f64 : F64 → Option Number
  pub as_u64-from_u64 : (n : ℕ) → n < 2 ^ 64 → as_u64 (from_u64 n) ≡ some n
  pub as_u64-lt : (n : Number) (k : ℕ) → as_u64 n ≡ some k → k < 2 ^ 64
  pub as_i64-from_i64 : (z : ℤ) → InSigned (2 ^ 63) z → as_i64 (from_i64 z) ≡ some z

-- `value.as_str()`
abbrev pub text_of : {V N : Type 0} → View V N → Option String
text_of (string s) = some s
text_of _ = none
