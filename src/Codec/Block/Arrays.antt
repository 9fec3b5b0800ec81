-- ===== src/Codec/Block/Arrays.antt =====
-- What is decoded of an array.
use native.Mathlib.Nat.{suc-mul}
use filling_pilot_edge_rs.Common.{
  false, true, length-take, length-drop, drop, ℕ, zero, suc, ◌+◌, ◌-◌, ◌*◌, ◌≤◌, ◌<◌, ◌^◌, ◌≡◌, ◌⊎◌,
  inl, inr, refl, String, some, List, [], ◌∷◌, arith, length, leb, ltb, ◌==◌, usize, Bool-cases,
  eq_iff,
}
use filling_pilot_edge_rs.Common.Dict
use filling_pilot_edge_rs.Common.Dict.{Dict}
use filling_pilot_edge_rs.Common.Eq.{String_eq}
use filling_pilot_edge_rs.Error.{Result, ok, err}
use filling_pilot_edge_rs.Json.{array}
use filling_pilot_edge_rs.Codec.Crates.{Crates}
use filling_pilot_edge_rs.Codec.Property.{DataBlockProperty, size_of}
use filling_pilot_edge_rs.Codec.Registry.{Codec}
use filling_pilot_edge_rs.Codec.Block.{
  push, decode_items, slice, insert_items, insert_array, decode_with,
}

past_end :
    (size i k n : ℕ)
    → 0 < size
    → n ≤ size
    → 0 < i
    → i * size + suc k * size < 2 ^ 64
    → leb (usize (usize (i * size) + size)) n ≡ false
past_end size zero k n p h q w = absurd (omega arith)
past_end size (suc i) k n p h q w = ground (arith, suc-mul i size, suc-mul k size)

module _ (crates : Crates) where
  open crates use {json}
  open json use {Value, make}

  -- Behind the first item, the bytes of one item have no other.
  later_items :
      (c : Codec) (size i n : ℕ) (bytes : List ℕ)
      → 0 < size
      → length bytes ≤ size
      → 0 < i
      → i * size + n * size < 2 ^ 64
      → decode_items crates c size i n bytes ≡ some []
  unfolding decode_items
  later_items c size i zero bytes p h k w = refl
  later_items c size i (suc n) bytes p h k w = rw (past_end size i n (length bytes) p h k w) (
      later_items c size (suc i) n bytes p h (omega arith)
        (omega (arith, suc-mul i size, suc-mul n size)))

  -- The values of a name after a property was decoded: as before, or an array of one item.
  abbrev pub OneItem : String → Dict String Value → Dict String Value → Type 0
  OneItem name before after =
      (Dict.get name after ≡ Dict.get name before)
      ⊎ ((v : Value) × (Dict.get name after ≡ some (make (array (v ∷ [])))))

  insert_items-OneItem :
      (name : String) (r : Result Value String) (values : Dict String Value)
      → OneItem name values (insert_items crates name (push crates r []) values)
  unfolding push insert_items
  insert_items-OneItem name (ok v) values =
      inr (v, rw (Dict.get-insert name name) (rw ((eq_iff name name).1 refl)))
  insert_items-OneItem name (err e) values = inl refl

  decoded_OneItem :
      (c : Codec) (name : String) (size count : ℕ) (bytes : List ℕ) (values : Dict String Value)
      → 0 < size
      → length bytes ≡ size
      → count * size < 2 ^ 64
      → (after : Dict String Value) × (insert_array crates name
            (decode_items crates c size 0 count bytes)
            values
          ≡ some after)
        × OneItem name values after
  unfolding decode_items
  decoded_OneItem c name size zero bytes values p h w =
      (values, unfold insert_items in refl, inl refl)
  decoded_OneItem c name size (suc n) bytes values p h w =
      let first : leb (usize (usize (0 * size) + size)) (length bytes) ≡ true =
        ground (arith, suc-mul n size) in
      let forward : ltb (usize (usize (0 * size) + size)) (usize (0 * size)) ≡ false =
        ground (arith, suc-mul n size) in
      rw
        (
          first,
          forward,
          later_items c size 1 n bytes p (omega (arith, h)) (omega arith)
              (omega (arith, suc-mul n size)),
        )
        (_, refl, insert_items-OneItem name _ values)

  -- Of an array property of values that take bytes, whose range and items end below 2 ^ 64, at most one
  -- item is decoded, without a panic, whatever its count: under its name is what was there before, or an
  -- array of one item.
  pub decode_with-OneItem :
      (c : Codec) (p : DataBlockProperty) (bytes : List ℕ) (values : Dict String Value)
      → (p.count == 1) ≡ false
      → 0 < size_of p
      → p.offset + size_of p < 2 ^ 64
      → p.count * size_of p < 2 ^ 64
      → (after : Dict String Value) × (decode_with crates (some c) p bytes values ≡ some after)
        × OneItem p.name values after
  unfolding decode_with
  decode_with-OneItem c p bytes values many pos fits items =
      let end = usize (p.offset + size_of p) in
      let forward : ltb end p.offset ≡ false = ground arith in
      elim (Bool-cases (leb end (length bytes))) [
        | inr outside ↦ rw outside (values, refl, inl refl)
        | inl inside ↦
            let prop_bytes = slice p.offset (end - p.offset) bytes in
            let whole : length prop_bytes ≡ size_of p = ground (
              arith,
              length-take (end - p.offset) (drop p.offset bytes),
              length-drop p.offset bytes,
            ) in
            rw (inside, forward, many)
              (decoded_OneItem c p.name (size_of p) p.count prop_bytes values pos whole items)
      ]
