-- ===== src/Common/Text.antt =====
-- What Rust's standard library does with texts: decimals, `split`, UTF-16 and the first 256 characters.
use Prim.Native.Char.{Char, char, code, IsScalar}
use Prim.Native.Nat.{compare, Ordering}
use Prim.Native.String.{String, char_at, ◌++◌ as ◌<>◌}
use filling_pilot_edge_rs.Common.{
  ℕ, zero, suc, ◌+◌, ◌-◌, ◌*◌, ◌/◌, ◌%◌, ◌<◌, ◌≡◌, ◌&&◌, Option, none, some, List, [], ◌∷◌, arith,
  ltb, leb, ◌==◌, if◌then◌else◌,
}
use filling_pilot_edge_rs.Common.Int.{ℤ, pos, negsuc, neg}

lt-IsScalar : (n : ℕ) → n < 256 → IsScalar n
lt-IsScalar n h = let small : compare n 55296 ≡ Ordering.lt = ground arith in rw small tt

-- `b as char` of a byte
unfoldable pub char_of_byte : ℕ → Char
unfolding lt-IsScalar
char_of_byte b = char (b % 256) (lt-IsScalar (b % 256) (omega arith))

-- The text of one character.
abbrev pub singleton : Char → String
singleton c = String.◌∷◌ c ""

-- The decimal digits of a number, in front of a text; the fuel is at least the number of digits.
unfoldable pub show_digits : ℕ → ℕ → String → String
show_digits zero n acc = acc
show_digits (suc fuel) n acc =
    let out = String.◌∷◌ (char_at "0123456789" (n % 10)) acc in
    let rest = show_digits fuel (n / 10) out in if ltb n 10 then out else rest

-- `format!("{}", n)`
unfoldable pub show_ℕ : ℕ → String
unfolding show_digits
show_ℕ n = show_digits (suc n) n ""

unfoldable pub show_ℤ : ℤ → String
unfolding show_ℕ
show_ℤ (pos n) = show_ℕ n
show_ℤ (negsuc n) = "-" <> show_ℕ (suc n)

-- `format!("{:02}", n)`
unfoldable pub show_two : ℕ → String
unfolding show_ℕ
show_two n = if ltb n 10 then "0" <> show_ℕ n else show_ℕ n

unfoldable pub parse_digits : ℕ → String → Option ℕ
parse_digits acc String.[] = some acc
parse_digits acc (String.◌∷◌ c s) =
    let rest = parse_digits (acc * 10 + (code c - b'0')) s in
    if leb b'0' (code c) && leb (code c) b'9' then rest else none

unfoldable pub parse_magnitude : String → Option ℕ
unfolding parse_digits
parse_magnitude String.[] = none
parse_magnitude (String.◌∷◌ c s) = parse_digits 0 (String.◌∷◌ c s)

unfoldable pub strip_plus : String → String
strip_plus String.[] = String.[]
strip_plus (String.◌∷◌ c s) = if code c == b'+' then s else String.◌∷◌ c s

unfoldable pub below : ℕ → Option ℕ → Option ℕ
below limit none = none
below limit (some n) = if ltb n limit then some n else none

-- `s.parse::<uN>()`, given 2 ^ N
unfoldable pub parse_unsigned : ℕ → String → Option ℕ
unfolding parse_magnitude strip_plus below
parse_unsigned limit s = below limit (parse_magnitude (strip_plus s))

unfoldable pub negated : Option ℕ → Option ℤ
negated none = none
negated (some n) = some (neg n)

unfoldable pub positive : Option ℕ → Option ℤ
positive none = none
positive (some n) = some (pos n)

-- `s.parse::<iN>()`, given 2 ^ (N - 1)
unfoldable pub parse_signed : ℕ → String → Option ℤ
unfolding parse_unsigned parse_magnitude below negated positive
parse_signed half String.[] = none
parse_signed half (String.◌∷◌ c s) =
    if code c == b'-'
    then negated (below (suc half) (parse_magnitude s))
    else positive (parse_unsigned half (String.◌∷◌ c s))

-- A character in front of the first of the pieces.
unfoldable pub prepend : Char → List String → List String
prepend c [] = singleton c ∷ []
prepend c (p ∷ ps) = (String.◌∷◌ c p) ∷ ps

-- `s.split(sep)`, given the number of the separator
unfoldable pub split : ℕ → String → List String
unfolding prepend
split sep String.[] = "" ∷ []
split sep (String.◌∷◌ c s) =
    let rest = split sep s in if code c == sep then "" ∷ rest else prepend c rest

-- `s.encode_utf16()`
unfoldable pub encode_utf16 : String → List ℕ
encode_utf16 String.[] = []
encode_utf16 (String.◌∷◌ c s) =
    let rest = encode_utf16 s in
    if ltb (code c) 65536
    then code c ∷ rest
    else (55296 + (code c - 65536) / 1024) ∷ (56320 + (code c - 65536) % 1024) ∷ rest
