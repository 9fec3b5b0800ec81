-- ===== src/Report/Time.antt =====
-- S7 DateAndTime fields and epoch milliseconds (`extract_s7_datetime` and its helpers,
-- src/report/cache.rs).
pub mod Calendar
pub mod Bounds
use filling_pilot_edge_rs.Common.{
  ℕ, zero, suc, ◌+◌, ◌-◌, ◌*◌, ◌/◌, ◌%◌, Bool, true, false, not, ◌&&◌, ◌||◌, Option, none, some,
  List, [], ◌∷◌, ltb, ◌==◌, if◌then◌else◌, length, get_or,
}
use filling_pilot_edge_rs.Common.Int.{ℤ, signed}

-- `(bcd >> 4) * 10 + (bcd & 0x0F)`; at most 165, so the u8 does not wrap
unfoldable pub bcd_to_u8 : ℕ → ℕ
bcd_to_u8 bcd = bcd / 16 * 10 + bcd % 16

unfoldable pub is_leap_year : ℕ → Bool
is_leap_year year = (year % 4 == 0 && not (year % 100 == 0)) || year % 400 == 0

-- `for y in 1970..year`, with the rounds left first
unfoldable pub add_years : ℕ → ℕ → ℕ → ℕ
add_years zero y total_days = total_days
add_years (suc rounds) y total_days =
    add_years rounds (y + 1) (total_days + (if is_leap_year y then 366 else 365))

abbrev pub days_in_months : List ℕ
days_in_months = 0 ∷ 31 ∷ 28 ∷ 31 ∷ 30 ∷ 31 ∷ 30 ∷ 31 ∷ 31 ∷ 30 ∷ 31 ∷ 30 ∷ 31 ∷ []

-- `for m in 1..month`, with the rounds left first
unfoldable pub add_months : ℕ → ℕ → ℕ → ℕ → ℕ
add_months year zero m total_days = total_days
add_months year (suc rounds) m total_days =
    let total = total_days + get_or days_in_months m 0 in
    add_months year rounds (m + 1) (if m == 2 && is_leap_year year then total + 1 else total)

-- The year is an i32, and at least 2000 at the one call.
unfoldable pub days_since_epoch : ℕ → ℕ → ℕ → Option ℕ
unfolding add_years add_months
days_since_epoch year month day =
    if month == 0 || ltb 12 month || day == 0 || ltb 31 day
    then none
    else some (add_months year (month - 1) 1 (add_years (year - 1970) 1970 0) + (day - 1))

-- `data[offset]`, behind the test of the length
abbrev byte_at : List ℕ → ℕ → ℕ
byte_at bytes i = get_or bytes i 0

-- The milliseconds are a u64 that is cast to i64.
unfoldable pub extract_s7_datetime : List ℕ → ℕ → Option ℤ
extract_s7_datetime bytes offset =
    if ltb (length bytes) (offset + 8)
    then none
    else let year = bcd_to_u8 (byte_at bytes offset) + 2000 in
      let month = bcd_to_u8 (byte_at bytes (offset + 1)) in
      let day = bcd_to_u8 (byte_at bytes (offset + 2)) in
      let hour = bcd_to_u8 (byte_at bytes (offset + 3)) in
      let minute = bcd_to_u8 (byte_at bytes (offset + 4)) in
      let sec = bcd_to_u8 (byte_at bytes (offset + 5)) in
      elim (days_since_epoch year month day) [
        | none ↦ none
        | some days ↦
            let secs = days * 86400 + hour * 3600 + minute * 60 + sec in
            some (signed 9223372036854775808 (secs * 1000 % 18446744073709551616))
      ]
