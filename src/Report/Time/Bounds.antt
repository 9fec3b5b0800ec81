-- ===== src/Report/Time/Bounds.antt =====
-- What `extract_s7_datetime` returns: the milliseconds of the Gregorian date, within an i64 and never
-- before 2000-01-01.
use filling_pilot_edge_rs.Common.{
  ℕ, zero, suc, ◌+◌, ◌*◌, ◌%◌, ◌^◌, ◌≤◌, ◌<◌, ◌≡◌, Bool, true, false, none, some, List, [], ◌∷◌,
  arith, leb, if◌then◌else◌, ◌&&◌, length, get_or, All, Bool-cases, inl, inr,
}
use filling_pilot_edge_rs.Common.Int.{ℤ, pos, signed}
use filling_pilot_edge_rs.Common.Bytes.{IsByte}
use filling_pilot_edge_rs.Report.Time.{bcd_to_u8, days_since_epoch, extract_s7_datetime}
use filling_pilot_edge_rs.Report.Time.Calendar.{days_from_civil, days_since_epoch-eq-civil}

get_or-IsByte : (bytes : List ℕ) (i : ℕ) → All IsByte bytes → get_or bytes i 0 < 256
get_or-IsByte [] i h = omega arith
get_or-IsByte (b ∷ bs) zero h = h.0
get_or-IsByte (b ∷ bs) (suc i) h = get_or-IsByte bs i h.1

pub bcd_to_u8-le : (b : ℕ) → b < 256 → bcd_to_u8 b ≤ 165
unfolding bcd_to_u8
bcd_to_u8-le b h = omega arith

-- The BCD field at an index.
abbrev field : List ℕ → ℕ → ℕ
field bytes i = bcd_to_u8 (get_or bytes i 0)

field-le : (bytes : List ℕ) (i : ℕ) → All IsByte bytes → field bytes i ≤ 165
field-le bytes i h = bcd_to_u8-le _ (get_or-IsByte bytes i h)

civil_bounds :
    (year month day : ℕ)
    → 2000 ≤ year
    → year ≤ 2165
    → 1 ≤ month
    → month ≤ 12
    → 1 ≤ day
    → day ≤ 31
    → (10957 ≤ days_from_civil year month day) × (days_from_civil year month day ≤ 72000)
unfolding days_from_civil
civil_bounds year month day = ground arith

-- The milliseconds from 1970-01-01 to a date and a time of day.
unfoldable pub civil_millis : ℕ → ℕ → ℕ → ℕ → ℕ → ℕ → ℕ
civil_millis year month day hour minute sec =
    (days_from_civil year month day * 86400 + hour * 3600 + minute * 60 + sec) * 1000

-- The same of the six BCD fields at an offset, whose years count from 2000.
abbrev pub millis_at : List ℕ → ℕ → ℕ
millis_at bytes o =
    civil_millis (field bytes o + 2000) (field bytes (o + 1)) (field bytes (o + 2))
      (field bytes (o + 3)) (field bytes (o + 4)) (field bytes (o + 5))

-- A month from 1 to 12 and a day from 1 to 31.
abbrev pub is_date : ℕ → ℕ → Bool
is_date month day = leb 1 month && leb month 12 && leb 1 day && leb day 31

civil_millis_bounds :
    (y month day h m s : ℕ)
    → y ≤ 165
    → h ≤ 165
    → m ≤ 165
    → s ≤ 165
    → is_date month day ≡ true
    → (946684800000 ≤ civil_millis (y + 2000) month day h m s)
      × (civil_millis (y + 2000) month day h m s < 2 ^ 63)
unfolding civil_millis
civil_millis_bounds y month day h m s hy hh hm hs d =
    ground (arith, civil_bounds (y + 2000) month day)

days_since_epoch-none :
    (year month day : ℕ) → is_date month day ≡ false → days_since_epoch year month day ≡ none
unfolding days_since_epoch
days_since_epoch-none year month day h = ground arith

signed-id : (n : ℕ) → n < 2 ^ 63 → signed 9223372036854775808 (n % 18446744073709551616) ≡ pos n
unfolding signed
signed-id n h = ground arith

signed-civil_millis :
    (y month day h m s : ℕ)
    → civil_millis y month day h m s < 2 ^ 63
    → signed 9223372036854775808 (
        (days_from_civil y month day * 86400 + h * 3600 + m * 60 + s) * 1000 % 18446744073709551616)
      ≡ pos (civil_millis y month day h m s)
unfolding civil_millis
signed-civil_millis y month day h m s = signed-id _

module _ (bytes : List ℕ) (o : ℕ) (h : All IsByte bytes) where
  millis_at_bounds :
      is_date (field bytes (o + 1)) (field bytes (o + 2)) ≡ true
      → (946684800000 ≤ millis_at bytes o) × (millis_at bytes o < 2 ^ 63)
  millis_at_bounds =
      civil_millis_bounds (field bytes o) _ _ _ _ _ (field-le bytes o h) (field-le bytes (o + 3) h)
        (field-le bytes (o + 4) h) (field-le bytes (o + 5) h)

  dated :
      is_date (field bytes (o + 1)) (field bytes (o + 2)) ≡ true
      → days_since_epoch (field bytes o + 2000) (field bytes (o + 1)) (field bytes (o + 2))
        ≡ some (days_from_civil (field bytes o + 2000) (field bytes (o + 1)) (field bytes (o + 2)))
  dated d =
      days_since_epoch-eq-civil (field bytes o + 2000) (field bytes (o + 1)) (field bytes (o + 2))
        (omega arith) (ground arith) (ground arith) (ground arith) (ground arith)

  -- On a buffer of bytes, the result is a time exactly when eight bytes stand at the offset and the
  -- month and the day are in range, and then it is the Gregorian one, with no wrap in the casts.
  pub extract_s7_datetime-eq : extract_s7_datetime bytes o ≡ (
      if leb (o + 8) (length bytes) && is_date (field bytes (o + 1)) (field bytes (o + 2))
      then some (pos (millis_at bytes o))
      else none)
  unfolding extract_s7_datetime
  extract_s7_datetime-eq = elim (Bool-cases (is_date (field bytes (o + 1)) (field bytes (o + 2)))) [
    | inl d ↦
        rw (dated d, extract_s7_datetime)
          (ground (
            arith,
            signed-civil_millis (field bytes o + 2000) (field bytes (o + 1)) (field bytes (o + 2))
                (field bytes (o + 3)) (field bytes (o + 4)) (field bytes (o + 5)),
            millis_at_bounds d,
            d,
          ))
    | inr d ↦
        rw (days_since_epoch-none (field bytes o + 2000) _ _ d, extract_s7_datetime) (ground arith)
  ]

  -- A time that is extracted from bytes is never before 2000-01-01 (946684800000 ms).
  pub extract_s7_datetime_after_2000 :
      (t : ℤ)
      → extract_s7_datetime bytes o ≡ some t
      → (n : ℕ) × (t ≡ pos n) × (946684800000 ≤ n) × (n < 2 ^ 63)
  extract_s7_datetime_after_2000 t e = (
    millis_at bytes o,
    ground (arith, extract_s7_datetime-eq),
    ground (arith, extract_s7_datetime-eq, millis_at_bounds),
    ground (arith, extract_s7_datetime-eq, millis_at_bounds),
  )
