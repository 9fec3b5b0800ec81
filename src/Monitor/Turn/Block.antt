-- ===== src/Monitor/Turn/Block.antt =====
-- The block that a monitor compares and sends.
use filling_pilot_edge_rs.Common.{
  ℕ, zero, suc, ◌+◌, ◌-◌, ◌≤◌, ◌<◌, ◌≡◌, none, some, List, [], ◌∷◌, ◌++◌, arith, ltb, if◌then◌else◌,
  ap, length, take, replicate, min, length-take, length-replicate, Bool-cases, inl, inr,
  length-append,
}
use filling_pilot_edge_rs.Common.Bytes.{copy_into, take-replicate, drop-replicate}
use filling_pilot_edge_rs.Monitor.Turn.{full_block}

min-suc : (a b : ℕ) → min (suc a) (suc b) ≡ suc (min a b)
min-suc a b = omega arith

min-zero : (a : ℕ) → min a 0 ≡ 0
min-zero a = omega arith

zero-min : (a : ℕ) → min 0 a ≡ 0
zero-min a = omega arith

take-min : (n : ℕ) (bytes : List ℕ) → take (min (length bytes) n) bytes ≡ take n bytes
take-min zero bytes = rw (min-zero (length bytes))
take-min (suc n) [] = rw (zero-min (suc n))
take-min (suc n) (b ∷ bs) = rw (min-suc (length bs) n) (ap (◌∷◌ b) (take-min n bs))

-- The bytes of the layout: zeros up to the offset, the data that fits, and zeros up to the block size.
pub layout : ℕ → ℕ → List ℕ → List ℕ
layout block_size offset bytes =
    replicate offset 0
    ++ (take (block_size - offset) bytes ++ replicate (block_size - offset - length bytes) 0)

-- The block is a panic exactly when the offset is past its size; otherwise it has the configured size,
-- and holds the data that fits behind as many zeros as the offset says, with zeros to its end.
pub full_block-layout :
    (block_size offset : ℕ) (bytes : List ℕ)
    → (full_block block_size offset bytes
        ≡ (if ltb block_size offset then none else some (layout block_size offset bytes)))
      × (offset ≤ block_size → length (layout block_size offset bytes) ≡ block_size)
unfolding full_block layout copy_into
full_block-layout block_size offset bytes =
    let fits = block_size - offset in
    (
      elim (Bool-cases (ltb block_size offset)) [
        | inl past ↦ rw (length-replicate {A = ℕ} block_size 0, past)
        | inr inside ↦
            rw
              (
                length-replicate {A = ℕ} block_size 0,
                inside,
                take-min fits bytes,
                take-replicate {A = ℕ} offset block_size 0 (ground arith),
                drop-replicate {A = ℕ} (offset + length (take fits bytes)) block_size 0,
              )
              (ap (λ (k : ℕ). some (replicate offset 0 ++ (take fits bytes ++ replicate k 0)))
                (omega (arith, length-take fits bytes)))
      ],
      λ h. omega (
        arith,
        length-replicate {A = ℕ} offset 0,
        length-append (replicate offset 0) (take fits bytes ++ replicate (fits - length bytes) 0),
        length-append (take fits bytes) (replicate (fits - length bytes) 0),
        length-take fits bytes,
        length-replicate {A = ℕ} (fits - length bytes) 0,
      ),
    )

pub full_block-some :
    (block_size offset : ℕ) (bytes : List ℕ)
    → offset ≤ block_size
    → full_block block_size offset bytes ≡ some (layout block_size offset bytes)
full_block-some block_size offset bytes h =
    ground (arith, (full_block-layout block_size offset bytes).0)

pub full_block-none :
    (block_size offset : ℕ) (bytes : List ℕ)
    → block_size < offset
    → full_block block_size offset bytes ≡ none
full_block-none block_size offset bytes h =
    ground (arith, (full_block-layout block_size offset bytes).0)
