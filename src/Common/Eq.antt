-- ===== src/Common/Eq.antt =====
-- Rust's `Eq`: a Boolean equality that decides the equality of values.
use filling_pilot_edge_rs.Common.{
  ℕ, String, ◌≡◌, ◌↔◌, Bool, true, ◌==◌ as nat_eqb, ==_iff, str_eq, eq_iff,
}

pub record Eq {ℓ} (A : Type ℓ) : Type ℓ where
  pub eqb : A → A → Bool
  pub eqb_iff : (a b : A) → (eqb a b ≡ true) ↔ (a ≡ b)

infix 50 ◌==◌
abbrev pub ◌==◌ {ℓ} : {A : Type ℓ} ⦃e : Eq A⦄ → A → A → Bool
◌==◌ ⦃e⦄ = e.eqb

instance abbrev pub ℕ_eq : Eq ℕ
ℕ_eq = record { eqb = nat_eqb; eqb_iff = ==_iff }

instance abbrev pub String_eq : Eq String
String_eq = record { eqb = str_eq; eqb_iff = eq_iff }
