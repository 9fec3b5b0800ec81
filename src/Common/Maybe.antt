-- ===== src/Common/Maybe.antt =====
-- Chains of `Option` results.
use filling_pilot_edge_rs.Common.{Option, none, some}

-- `o.and_then(f)`, and `?` in a function that returns an `Option`
infixl 5 ◌>>=◌
abbrev pub ◌>>=◌ {ℓ κ} : {A : Type ℓ} {B : Type κ} → Option A → (A → Option B) → Option B
none >>= f = none
some a >>= f = f a
