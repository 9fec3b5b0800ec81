-- ===== src/Report/Time/Calendar.antt =====
-- The day count of `days_since_epoch` against the proleptic Gregorian calendar.
use filling_pilot_edge_rs.Common.{
  ℕ, zero, suc, ◌+◌, ◌-◌, ◌*◌, ◌/◌, ◌%◌, ◌≤◌, ◌≡◌, refl, Bool, some, arith, leb, if◌then◌else◌, ◌⊎◌,
  inl, inr,
}
use filling_pilot_edge_rs.Report.Time.{is_leap_year, add_years, add_months, days_since_epoch}

-- The leap years below `y`: multiples of 4 that are no multiples of 100, and multiples of 400.
abbrev leaps_before : ℕ → ℕ
leaps_before y = (y + 3) / 4 + (y + 399) / 400 - (y + 99) / 100

leaps_before-suc :
    (y : ℕ) → leaps_before (y + 1) ≡ leaps_before y + (if is_leap_year y then 1 else 0)
unfolding is_leap_year
leaps_before-suc y = ground arith

pub add_years-eq :
    (rounds y t : ℕ)
    → add_years rounds y t + 365 * y + leaps_before y
      ≡ t + 365 * (y + rounds) + leaps_before (y + rounds)
unfolding add_years
add_years-eq zero y t = omega arith
add_years-eq (suc rounds) y t = ground (
  arith,
  add_years-eq rounds (y + 1) (t + (if is_leap_year y then 366 else 365)),
  leaps_before-suc y,
)

-- Days from 1970-01-01 to a date of the Gregorian calendar, by years that begin in March: the
-- months before month `m` of such a year have (153 m + 2) / 5 days.
unfoldable pub days_from_civil : ℕ → ℕ → ℕ → ℕ
days_from_civil year month day =
    let y = if leb month 2 then year - 1 else year in
    let m = (month + 9) % 12 in
    365 * y + y / 4 + y / 400 + (153 * m + 2) / 5 + (day - 1) - y / 100 - 719468

-- The days before month `m`, from January, as the March-based formula has them.
month_days : Bool → ℕ → ℕ
month_days leap month =
    if leb month 2
    then 31 * (month - 1)
    else (153 * (month - 3) + 2) / 5 + (if leap then 60 else 59)

-- A month number as a pattern, so that a statement about all months has one case for each.
Month-cases :
    (P : ℕ → Type 0)
    → P 1
    → P 2
    → P 3
    → P 4
    → P 5
    → P 6
    → P 7
    → P 8
    → P 9
    → P 10
    → P 11
    → P 12
    → (m : ℕ) → 1 ≤ m
    → m ≤ 12
    → P m
Month-cases P a b c d e f g h i j k l m lo hi = elim (from_le m hi) [
  | inl z ↦ absurd (omega arith)
  | inr q ↦ q
]
  where
    from_le : (m : ℕ) → m ≤ 12 → (m ≡ 0) ⊎ P m
    from_le zero _ = inl refl
    from_le (suc zero) _ = inr a
    from_le (suc (suc zero)) _ = inr b
    from_le (suc (suc (suc zero))) _ = inr c
    from_le (suc (suc (suc (suc zero)))) _ = inr d
    from_le (suc (suc (suc (suc (suc zero))))) _ = inr e
    from_le (suc (suc (suc (suc (suc (suc zero)))))) _ = inr f
    from_le (suc (suc (suc (suc (suc (suc (suc zero))))))) _ = inr g
    from_le (suc (suc (suc (suc (suc (suc (suc (suc zero)))))))) _ = inr h
    from_le (suc (suc (suc (suc (suc (suc (suc (suc (suc zero))))))))) _ = inr i
    from_le (suc (suc (suc (suc (suc (suc (suc (suc (suc (suc zero)))))))))) _ = inr j
    from_le (suc (suc (suc (suc (suc (suc (suc (suc (suc (suc (suc zero))))))))))) _ = inr k
    from_le (suc (suc (suc (suc (suc (suc (suc (suc (suc (suc (suc (suc zero)))))))))))) _ = inr l
    from_le (suc (suc (suc (suc (suc (suc (suc (suc (suc (suc (suc (suc (suc r))))))))))))) h =
        absurd (omega arith)

add_months-eq :
    (year t m : ℕ)
    → 1 ≤ m
    → m ≤ 12
    → add_months year (m - 1) 1 t ≡ t + month_days (is_leap_year year) m
unfolding add_months month_days
add_months-eq year t m =
    Month-cases (λ k. add_months year (k - 1) 1 t ≡ t + month_days (is_leap_year year) k)
      (ground arith) (ground arith) (ground arith) (ground arith) (ground arith) (ground arith)
      (ground arith) (ground arith) (ground arith) (ground arith) (ground arith) (ground arith) m

civil-month_days :
    (year m day : ℕ)
    → 1970 ≤ year
    → 1 ≤ m
    → m ≤ 12
    → days_from_civil year m day
      ≡ 365 * year + leaps_before year + month_days (is_leap_year year) m + (day - 1) - 719528
unfolding days_from_civil month_days is_leap_year
civil-month_days year m day y lo hi = ground arith

-- On every date from 1970 on whose month is 1 to 12 and whose day is 1 to 31 the loops over years
-- and months give the day number of the Gregorian calendar.
pub days_since_epoch-eq-civil :
    (year month day : ℕ)
    → 1970 ≤ year
    → 1 ≤ month
    → month ≤ 12
    → 1 ≤ day
    → day ≤ 31
    → days_since_epoch year month day ≡ some (days_from_civil year month day)
unfolding days_since_epoch
days_since_epoch-eq-civil year month day y lo hi d e =
    rw
      (
        civil-month_days year month day y lo hi,
        add_months-eq year (add_years (year - 1970) 1970 0) month lo hi,
      )
      (ground (arith, add_years-eq (year - 1970) 1970 0))
