-- ===== src/Json/Derive.antt =====
-- What serde derives for a struct: its fields from a JSON value, and the numbers of its fields.
use filling_pilot_edge_rs.Common.{
  ℕ, ◌<◌, ◌^◌, ◌≡◌, refl, ◌&&◌, Bool, String, Option, none, some, List, [], ◌∷◌, ltb, leb, length,
  if◌then◌else◌, arith, if-true, All,
}
use filling_pilot_edge_rs.Common.Dict
use filling_pilot_edge_rs.Common.Dict.{Dict}
use filling_pilot_edge_rs.Common.Eq.{String_eq}
use filling_pilot_edge_rs.Common.Int.{ℤ, pos, negsuc, InSigned}
use filling_pilot_edge_rs.Common.Maybe.{◌>>=◌}
use filling_pilot_edge_rs.Json.{Json, View, bool, number, string, array, object, text_of}
use filling_pilot_edge_rs.Json.Members.{number_of, items_of}

abbrev pub zip_names {ℓ} : {V : Type ℓ} → List String → List V → Dict String V
zip_names [] vs = []
zip_names (n ∷ ns) [] = []
zip_names (n ∷ ns) (v ∷ vs) = (n, v) ∷ zip_names ns vs

-- The fields of a struct, from an object or from an array with the fields in order; the last ones of an
-- array may be left out as far as they have defaults.
abbrev pub struct_fields : {V N : Type 0} → ℕ → List String → View V N → Option (Dict String V)
struct_fields least names (object fields) = some fields
struct_fields least names (array vs) =
    if leb least (length vs) && leb (length vs) (length names)
    then some (zip_names names vs)
    else none
struct_fields least names _ = none

-- A field that must be there, one that has a default, and one that is an `Option`.
abbrev pub required : {V A : Type 0} → (V → Option A) → String → Dict String V → Option A
required read name fields = do v ← Dict.get name fields; read v

abbrev pub read_or : {V A : Type 0} → (V → Option A) → A → Option V → Option A
read_or read default none = some default
read_or read default (some v) = read v

abbrev pub defaulted : {V A : Type 0} → (V → Option A) → A → String → Dict String V → Option A
defaulted read default name fields = read_or read default (Dict.get name fields)

-- `from_value::<Vec<T>>`, which fails if an item does
unfoldable pub read_all : {V A : Type 0} → (V → Option A) → List V → Option (List A)
read_all read [] = some []
read_all read (v ∷ vs) = do a ← read v; rest ← read_all read vs; some (a ∷ rest)

abbrev pub bool_of : {V N : Type 0} → View V N → Option Bool
bool_of (bool b) = some b
bool_of _ = none

-- An i64 as a signed number below a bound.
abbrev pub signed_below : ℕ → ℤ → Option ℤ
signed_below half (pos n) = if ltb n half then some (pos n) else none
signed_below half (negsuc n) = if ltb n half then some (negsuc n) else none

module _ (json : Json) where
  open json use {Value, view, make}

  unfoldable pub text_value : Value → Option String
  text_value v = text_of (view v)

  unfoldable pub bool_value : Value → Option Bool
  bool_value v = bool_of (view v)

  -- An unsigned number below a bound.
  unfoldable pub unsigned_value : ℕ → Value → Option ℕ
  unsigned_value bound v = do
    n ← number_of (view v)
    k ← json.as_u64 n
    if ltb k bound then some k else none

  -- A signed number, given half of its range.
  unfoldable pub signed_value : ℕ → Value → Option ℤ
  signed_value half v = do n ← number_of (view v); z ← json.as_i64 n; signed_below half z

  unfoldable pub list_value : {A : Type 0} → (Value → Option A) → Value → Option (List A)
  unfolding read_all
  list_value read v = do vs ← items_of (view v); read_all read vs

  abbrev pub of_text : String → Value
  of_text s = make (string s)

  abbrev pub of_unsigned : ℕ → Value
  of_unsigned n = make (number (json.from_u64 n))

  abbrev pub of_signed : ℤ → Value
  of_signed z = make (number (json.from_i64 z))

  abbrev pub of_list : {A : Type 0} → (A → Value) → List A → List Value
  of_list write [] = []
  of_list write (a ∷ rest) = write a ∷ of_list write rest

  -- What is written is read back.
  pub text_value-of_text : (s : String) → text_value (of_text s) ≡ some s
  unfolding text_value
  text_value-of_text s = rw (json.view-make (string s)) refl

  pub unsigned_value-of_unsigned :
      (bound n : ℕ) → n < bound → n < 2 ^ 64 → unsigned_value bound (of_unsigned n) ≡ some n
  unfolding unsigned_value
  unsigned_value-of_unsigned bound n h wide =
      rw (json.view-make (number (json.from_u64 n)), json.as_u64-from_u64 n wide)
        (if-true (ltb n bound) (some n) none (ground arith))

  signed_below-fits : (half : ℕ) (z : ℤ) → InSigned half z → signed_below half z ≡ some z
  signed_below-fits half (pos n) h = if-true (ltb n half) (some (pos n)) none (ground arith)
  signed_below-fits half (negsuc n) h = if-true (ltb n half) (some (negsuc n)) none (ground arith)

  pub signed_value-of_signed :
      (half : ℕ) (z : ℤ)
      → InSigned half z
      → InSigned (2 ^ 63) z
      → signed_value half (of_signed z) ≡ some z
  unfolding signed_value
  signed_value-of_signed half z h wide =
      rw (json.view-make (number (json.from_i64 z)), json.as_i64-from_i64 z wide)
        (signed_below-fits half z h)

  pub read_all-of_list :
      {A : Type 0} (P : A → Type 0) (read : Value → Option A) (write : A → Value)
      → ((a : A) → P a → read (write a) ≡ some a)
      → (items : List A) → All P items
      → read_all read (of_list write items) ≡ some items
  unfolding read_all
  read_all-of_list P read write back [] h = refl
  read_all-of_list P read write back (a ∷ rest) h =
      rw (back a h.0, read_all-of_list P read write back rest h.1) refl

  pub list_value-of_list :
      {A : Type 0} (P : A → Type 0) (read : Value → Option A) (write : A → Value)
      → ((a : A) → P a → read (write a) ≡ some a)
      → (items : List A) → All P items
      → list_value read (make (array (of_list write items))) ≡ some items
  unfolding list_value
  list_value-of_list P read write back items h =
      rw (json.view-make (array (of_list write items))) (read_all-of_list P read write back items h)
