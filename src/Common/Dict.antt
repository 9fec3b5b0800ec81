-- ===== src/Common/Dict.antt =====
-- Rust's `HashMap`, as an association list. The order of its entries stands for the order in which
-- the real map is iterated, which is not specified: theorems hold of every list.
use filling_pilot_edge_rs.Common.{
  ◌≡◌, refl, Bool, true, false, Option, none, some, List, [], ◌∷◌, arith, ◌||◌, if◌then◌else◌,
  is_none, Bool-cases, inl, inr, subst, sym,
}
use mathlib.Core.Option.{some-injective}
use filling_pilot_edge_rs.Common.Eq.{Eq, ◌==◌}

abbrev pub Dict {ℓ κ} : Type ℓ → Type κ → Type (ℓ ⊔ κ)
Dict K V = List (K × V)

module _ {ℓ κ} {K : Type ℓ} {V : Type κ} where
  abbrev pub keys : Dict K V → List K
  keys [] = []
  keys ((k, v) ∷ m) = k ∷ keys m

module _ {ℓ} {K : Type ℓ} ⦃e : Eq K⦄ where
  abbrev pub contains : K → List K → Bool
  contains k [] = false
  contains k (j ∷ js) = k == j || contains k js

module _ {ℓ κ} {K : Type ℓ} {V : Type κ} ⦃e : Eq K⦄ where
  -- `m.get(&k)`
  unfoldable pub get : K → Dict K V → Option V
  get k [] = none
  get k ((j, v) ∷ m) = if k == j then some v else get k m

  -- `m.insert(k, v)`
  unfoldable pub insert : K → V → Dict K V → Dict K V
  insert k v [] = (k, v) ∷ []
  insert k v ((j, w) ∷ m) = if k == j then (k, v) ∷ m else (j, w) ∷ insert k v m

  -- `m.remove(&k)`
  unfoldable pub remove : K → Dict K V → Dict K V
  remove k [] = []
  remove k ((j, w) ∷ m) = let rest = remove k m in if k == j then rest else (j, w) ∷ rest

  pub get-insert :
      (j k : K) (v : V) (m : Dict K V) → get j (insert k v m) ≡ (if j == k then some v else get j m)
  unfolding get insert
  get-insert j k v [] = refl
  get-insert j k v ((i, w) ∷ m) =
      ground (arith, get-insert j k v m, e.eqb_iff j k, e.eqb_iff k i, e.eqb_iff j i)

  pub get-remove :
      (j k : K) (m : Dict K V) → get j (remove k m) ≡ (if j == k then none else get j m)
  unfolding get remove
  get-remove j k [] = ground arith
  get-remove j k ((i, w) ∷ m) =
      ground (arith, get-remove j k m, e.eqb_iff j k, e.eqb_iff k i, e.eqb_iff j i)

  pub contains-keys :
      (k : K) (m : Dict K V) → contains k (keys m) ≡ (if is_none (get k m) then false else true)
  unfolding get
  contains-keys k [] = refl
  contains-keys k ((j, v) ∷ m) = ground (arith, contains-keys k m)

  -- Every entry of the map satisfies `P`.
  abbrev pub AllEntries {μ} : (K → V → Type μ) → Dict K V → Type μ
  AllEntries P [] = Unit {μ}
  AllEntries P ((k, v) ∷ m) = P k v × AllEntries P m

  pub insert-AllEntries {μ} :
      (P : K → V → Type μ) (k : K) (v : V) (m : Dict K V)
      → P k v
      → AllEntries P m
      → AllEntries P (insert k v m)
  unfolding insert
  insert-AllEntries P k v [] p h = (p, tt)
  insert-AllEntries P k v ((j, w) ∷ m) p h = elim (Bool-cases (k == j)) [
    | inl same ↦ rw same (p, h.1)
    | inr other ↦ rw other (h.0, insert-AllEntries P k v m p h.1)
  ]

  pub remove-AllEntries {μ} :
      (P : K → V → Type μ) (k : K) (m : Dict K V) → AllEntries P m → AllEntries P (remove k m)
  unfolding remove
  remove-AllEntries P k [] h = h
  remove-AllEntries P k ((j, w) ∷ m) h = elim (Bool-cases (k == j)) [
    | inl same ↦ rw same (remove-AllEntries P k m h.1)
    | inr other ↦ rw other (h.0, remove-AllEntries P k m h.1)
  ]

  pub get-AllEntries {μ} :
      (P : K → V → Type μ) (k : K) (m : Dict K V) (v : V)
      → AllEntries P m
      → get k m ≡ some v
      → P k v
  unfolding get
  get-AllEntries P k [] v h g = absurd (cc)
  get-AllEntries P k ((j, w) ∷ m) v h g = elim (Bool-cases (k == j)) [
    | inl same ↦
        subst (P k) (some-injective _ _ (rw same at g))
          (subst (λ x. P x w) (sym ((e.eqb_iff k j).0 same)) h.0)
    | inr other ↦ get-AllEntries P k m v h.1 (rw other at g)
  ]

  -- `for (_, v) in m.iter_mut()`: the loop body applied to each value.
  unfoldable pub map_values : (V → V) → Dict K V → Dict K V
  map_values f [] = []
  map_values f ((k, v) ∷ m) = (k, f v) ∷ map_values f m

  pub get-map_values :
      (f : V → V) (k : K) (m : Dict K V)
      → get k (map_values f m) ≡ elim (get k m) [ none ↦ none | some v ↦ some (f v) ]
  unfolding get map_values
  get-map_values f k [] = refl
  get-map_values f k ((j, v) ∷ m) = ground (arith, get-map_values f k m)

  pub map_values-AllEntries {μ} :
      (P Q : K → V → Type μ) (f : V → V) (m : Dict K V)
      → ((k : K) (v : V) → P k v → Q k (f v))
      → AllEntries P m
      → AllEntries Q (map_values f m)
  unfolding map_values
  map_values-AllEntries P Q f [] s h = h
  map_values-AllEntries P Q f ((k, v) ∷ m) s h = (s k v h.0, map_values-AllEntries P Q f m s h.1)
