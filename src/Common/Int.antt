-- ===== src/Common/Int.antt =====
-- Signed integers over the native numbers, and the two's complement casts of Rust (`as i16` ...).
use native.Mathlib.Nat.{mod-eq_of_lt, mod-lt}
use filling_pilot_edge_rs.Common.{
  Bool-cases, inl, inr, zero, suc, ◌<◌, ◌/◌, ℕ, ◌+◌, ◌-◌, ◌%◌, ◌≡◌, ◌↔◌, Bool, true, false, arith,
  ltb, ◌==◌, if◌then◌else◌,
}

-- `negsuc n` is -(n + 1).
pub data ℤ : Type 0 where
  pos : ℕ → ℤ
  negsuc : ℕ → ℤ

abbrev pub ltb_ℤ : ℤ → ℤ → Bool
ltb_ℤ (pos a) (pos b) = ltb a b
ltb_ℤ (pos a) (negsuc b) = false
ltb_ℤ (negsuc a) (pos b) = true
ltb_ℤ (negsuc a) (negsuc b) = ltb b a

abbrev pub eq_ℤ : ℤ → ℤ → Bool
eq_ℤ (pos a) (pos b) = a == b
eq_ℤ (pos a) (negsuc b) = false
eq_ℤ (negsuc a) (pos b) = false
eq_ℤ (negsuc a) (negsuc b) = a == b

pub eq_ℤ_iff : (a b : ℤ) → (eq_ℤ a b ≡ true) ↔ (a ≡ b)
eq_ℤ_iff a b = ground arith

-- The signed number of a w-bit pattern, given 2 ^ (w - 1).
unfoldable pub signed : ℕ → ℕ → ℤ
signed half n = if ltb n half then pos n else negsuc (half + half - n - 1)

-- The w-bit pattern of a number (`as u16` and the like), given 2 ^ w.
unfoldable pub pattern_of : ℕ → ℤ → ℕ
pattern_of m (pos n) = n % m
pattern_of m (negsuc n) = m - 1 - n % m

-- `-n`
abbrev pub neg : ℕ → ℤ
neg zero = pos 0
neg (suc n) = negsuc n

-- `z - k`
abbrev pub minus : ℤ → ℕ → ℤ
minus (pos n) k = if ltb n k then neg (k - n) else pos (n - k)
minus (negsuc n) k = negsuc (n + k)

-- `z % k` and `z / k` for a positive k: Rust rounds towards zero.
abbrev pub rem : ℤ → ℕ → ℤ
rem (pos n) k = pos (n % k)
rem (negsuc n) k = neg (suc n % k)

abbrev pub quot : ℤ → ℕ → ℤ
quot (pos n) k = pos (n / k)
quot (negsuc n) k = neg (suc n / k)

-- `-half <= z && z < half`
abbrev pub InSigned : ℕ → ℤ → Type 0
InSigned half (pos n) = n < half
InSigned half (negsuc n) = n < half

mod_small : (n m : ℕ) → n < m → n % m ≡ n
mod_small n m h = mod-eq_of_lt h

pub signed-pattern_of :
    (half : ℕ) (z : ℤ) → InSigned half z → signed half (pattern_of (half + half) z) ≡ z
unfolding signed pattern_of
signed-pattern_of half (pos n) h = ground (arith, mod_small n (half + half) (omega arith))
signed-pattern_of half (negsuc n) h = rw (mod_small n (half + half) (omega arith)) (ground arith)

pub pattern_of-signed :
    (half u : ℕ) → u < half + half → pattern_of (half + half) (signed half u) ≡ u
unfolding signed pattern_of
pattern_of-signed half u h = elim (Bool-cases (ltb u half)) [
  | inl low ↦ rw low (mod_small u (half + half) h)
  | inr high ↦
      rw (high, mod_small (half + half - u - 1) (half + half) (ground arith)) (ground arith)
]

pub pattern_of-lt : (m : ℕ) (z : ℤ) → 0 < m → pattern_of m z < m
unfolding pattern_of
pattern_of-lt m (pos n) h = mod-lt n h
pattern_of-lt m (negsuc n) h = omega arith
