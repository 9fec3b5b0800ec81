-- ===== src/Common/Bytes.antt =====
-- Bytes as numbers below 256: the readings of the Rust standard library, and slices.
use native.Mathlib.Nat.{pow-suc, mul-le-mul_right}
use mathlib.Core.List.{append-nil, append_assoc}
use filling_pilot_edge_rs.Common.{
  ◌^◌, sym, ◌∙◌, ℕ, zero, suc, ◌+◌, ◌-◌, ◌*◌, ◌/◌, ◌%◌, ◌≤◌, ◌<◌, ◌≡◌, refl, List, [], ◌∷◌, ◌++◌,
  arith, length, All, length-append, take, drop, length-take, length-drop, ap, All-append,
  replicate,
}

abbrev pub IsByte : ℕ → Type 0
IsByte b = b < 256

-- `uN::from_be_bytes`
unfoldable pub from_be : ℕ → List ℕ → ℕ
from_be acc [] = acc
from_be acc (b ∷ bs) = from_be (acc * 256 + b) bs

-- `to_be_bytes` of a number of n bytes
unfoldable pub to_be : ℕ → ℕ → List ℕ
to_be zero v = []
to_be (suc n) v = to_be n (v / 256) ++ (v % 256 ∷ [])

pub length-to_be : (n v : ℕ) → length (to_be n v) ≡ n
unfolding to_be
length-to_be zero v = refl
length-to_be (suc n) v =
    omega (arith, length-append (to_be n (v / 256)) (v % 256 ∷ []), length-to_be n (v / 256))

pub to_be-IsByte : (n v : ℕ) → All IsByte (to_be n v)
unfolding to_be
to_be-IsByte zero v = tt
to_be-IsByte (suc n) v =
    All-append IsByte (to_be n (v / 256)) _ (to_be-IsByte n (v / 256)) (omega arith)

-- `full[start..start + src.len()].copy_from_slice(src)`, where the range fits
unfoldable pub copy_into : List ℕ → ℕ → List ℕ → List ℕ
copy_into full start src = take start full ++ (src ++ drop (start + length src) full)

pub length-copy_into :
    (full : List ℕ) (start : ℕ) (src : List ℕ)
    → start + length src ≤ length full
    → length (copy_into full start src) ≡ length full
unfolding copy_into
length-copy_into full start src h = omega (
  arith,
  length-append (take start full) (src ++ drop (start + length src) full),
  length-append src (drop (start + length src) full),
  length-take start full,
  length-drop (start + length src) full,
)

pub take-replicate : {A : Type 0} (n m : ℕ) (a : A) → n ≤ m → take n (replicate m a) ≡ replicate n a
take-replicate zero m a h = refl
take-replicate (suc n) zero a h = absurd (omega arith)
take-replicate (suc n) (suc m) a h = ap (◌∷◌ a) (take-replicate n m a (omega arith))

pub drop-replicate : {A : Type 0} (n m : ℕ) (a : A) → drop n (replicate m a) ≡ replicate (m - n) a
drop-replicate zero m a = ground arith
drop-replicate (suc n) zero a = ground arith
drop-replicate (suc n) (suc m) a = ground (arith, drop-replicate n m a)

from_be-append :
    (acc : ℕ) (bs : List ℕ) (b : ℕ) → from_be acc (bs ++ (b ∷ [])) ≡ from_be acc bs * 256 + b
unfolding from_be
from_be-append acc [] b = refl
from_be-append acc (c ∷ bs) b = from_be-append (acc * 256 + c) bs b

-- A number of n bytes is read back.
pub from_be-to_be : (n v : ℕ) → v < 256 ^ n → from_be 0 (to_be n v) ≡ v
unfolding from_be to_be
from_be-to_be zero v h = omega arith
from_be-to_be (suc n) v h =
    let fits : v / 256 < 256 ^ n = omega arith in
    from_be-append 0 (to_be n (v / 256)) (v % 256) ∙ omega (arith, from_be-to_be n (v / 256) fits)

last_digit :
    (n acc b : ℕ) (bs : List ℕ)
    → IsByte b
    → to_be (suc n) (acc * 256 + b) ++ bs ≡ to_be n acc ++ (b ∷ bs)
unfolding to_be
last_digit n acc b bs h =
    let low : (acc * 256 + b) % 256 ≡ b = omega arith in
    let high : (acc * 256 + b) / 256 ≡ acc = omega arith in
    rw (low, high) (append_assoc (to_be n acc) (b ∷ []) bs)

to_be-from_be-append :
    (m n acc : ℕ) (bs : List ℕ)
    → m ≡ n + length bs
    → All IsByte bs
    → to_be m (from_be acc bs) ≡ to_be n acc ++ bs
unfolding from_be
to_be-from_be-append m n acc [] e h =
    ap (λ k. to_be k acc) (omega arith) ∙ sym (append-nil (to_be n acc))
to_be-from_be-append m n acc (b ∷ bs) e h =
    to_be-from_be-append m (suc n) (acc * 256 + b) bs (omega arith) h.1 ∙ last_digit n acc b bs h.0

-- Bytes are written back.
pub to_be-from_be : (bs : List ℕ) → All IsByte bs → to_be (length bs) (from_be 0 bs) ≡ bs
to_be-from_be bs h = to_be-from_be-append (length bs) 0 0 bs (omega arith) h ∙ unfold to_be in refl

block_lt : (acc b n p : ℕ) → b < 256 → n < (acc * 256 + b + 1) * p → n < (acc + 1) * (p * 256)
block_lt acc b n p h k =
    let fits : acc * 256 + b + 1 ≤ acc * 256 + 256 = omega arith in
    let step = mul-le-mul_right p fits in grind arith

pub from_be-lt :
    (acc : ℕ) (bs : List ℕ) → All IsByte bs → from_be acc bs < (acc + 1) * 256 ^ length bs
unfolding from_be
from_be-lt acc [] h = omega arith
from_be-lt acc (b ∷ bs) h =
    rw (pow-suc 256 (length bs))
      (block_lt acc b _ (256 ^ length bs) h.0 (from_be-lt (acc * 256 + b) bs h.1))
