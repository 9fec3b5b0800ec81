-- ===== src/Report/Station.antt =====
-- Fill stations (src/report/fill_station.rs). The fields of a station are its key in the cache, so
-- the hand-written `PartialEq` must be equality of all fields.
pub mod Parse
use filling_pilot_edge_rs.Common.{
  ℕ, String, ◌≡◌, ◌↔◌, Bool, true, ◌&&◌, ◌==◌, str_eq, eq_iff, arith, subst,
}
use filling_pilot_edge_rs.Common.Int.{ℤ, eq_ℤ, eq_ℤ_iff}
use filling_pilot_edge_rs.Common.Eq.{Eq}

pub record FillStation : Type 0 where
  pub id : String
  pub ip : String
  pub port : ℕ  -- u16
  pub report_db : ℤ  -- i32
  pub status_db : ℤ  -- i32
  pub report_count : ℕ
  pub report_db_size : ℕ
  pub report_db_task_offset : ℕ
  pub report_db_start_time_offset : ℕ
  pub report_db_end_time_offset : ℕ
  pub status_db_size : ℕ

-- `PartialEq::eq`
unfoldable pub eq : FillStation → FillStation → Bool
eq self other =
    str_eq self.id other.id
    && str_eq self.ip other.ip
    && self.port == other.port
    && eq_ℤ self.report_db other.report_db
    && eq_ℤ self.status_db other.status_db
    && self.report_count == other.report_count
    && self.report_db_size == other.report_db_size
    && self.report_db_task_offset == other.report_db_task_offset
    && self.report_db_start_time_offset == other.report_db_start_time_offset
    && self.report_db_end_time_offset == other.report_db_end_time_offset
    && self.status_db_size == other.status_db_size

and-true : (a b : Bool) → (a && b) ≡ true → (a ≡ true) × (b ≡ true)
and-true a b h = ground arith

eq_refl : (a : FillStation) → eq a a ≡ true
unfolding eq
eq_refl a = ground (
  arith,
  eq_iff a.id a.id,
  eq_iff a.ip a.ip,
  eq_ℤ_iff a.report_db a.report_db,
  eq_ℤ_iff a.status_db a.status_db,
)

eq_sound : (a b : FillStation) → eq a b ≡ true → a ≡ b
unfolding eq
eq_sound a b h = ground (
  arith,
  eq_iff a.id b.id,
  eq_iff a.ip b.ip,
  eq_ℤ_iff a.report_db b.report_db,
  eq_ℤ_iff a.status_db b.status_db,
)

-- Two stations compare equal exactly when they are the same in every field, so a changed setting
-- makes another key of the cache.
pub eq_correct : (a b : FillStation) → (eq a b ≡ true) ↔ (a ≡ b)
eq_correct a b = (eq_sound a b, λ p. subst (λ x. eq a x ≡ true) p (eq_refl a))

instance abbrev pub FillStation_eq : Eq FillStation
FillStation_eq = record { eqb = eq; eqb_iff = eq_correct }
