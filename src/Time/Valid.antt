-- ===== src/Time/Valid.antt =====
-- Fields that are in range are kept as they are.
use gocubrid.Prelude.{
  ℕ, ℤ, pos, ◌+◌, ◌≤◌, ◌<◌, ◌≡◌, refl, arith, le→ltb, ◌-◌, ◌/◌, zero, suc, ◌+ℤ◌, ◌-ℤ◌,
}
use native.Mathlib.Nat.{mod-eq_of_lt}
use gocubrid.Time.{utc, Time, date, days_in, settle, floor_div, floor_mod}

pub record IsCivil (t : Time) : Type 0 where
  pub month_pos : 1 ≤ t.month
  pub month_le : t.month ≤ 12
  pub day_pos : 1 ≤ t.day
  pub day_le : t.day ≤ days_in t.year t.month
  pub hour_lt : t.hour < 24
  pub minute_lt : t.minute < 60
  pub second_lt : t.second < 60
  pub nanosecond_lt : t.nanosecond < 1_000_000_000

test_leap : date (pos 2024) (pos 1) (pos 60) (pos 25) (pos 61) (pos 0) (pos 0) utc ≡ record {
  year = pos 2024;
  month = 3;
  day = 1;
  hour = 2;
  minute = 1;
  second = 0;
  nanosecond = 0;
  location = utc;
}
unfolding date settle floor_div floor_mod days_in ◌+ℤ◌ ◌-ℤ◌
test_leap = refl

div-eq_zero : (n base : ℕ) → n < base → n / base ≡ 0
div-eq_zero n base h = grind arith

pub days_in-le : (y : ℤ) (m : ℕ) → days_in y m ≤ 31
unfolding days_in
days_in-le y m = ground arith

-- A field in range carries nothing over.
no_carry : (z : ℤ) (n base : ℕ) → n < base → z +ℤ floor_div (pos n) base ≡ z
unfolding floor_div ◌+ℤ◌
no_carry z n base h = ground (arith, div-eq_zero n base h)

floor_mod-lt : (n base : ℕ) → n < base → floor_mod (pos n) base ≡ n
unfolding floor_mod
floor_mod-lt n base h = mod-eq_of_lt h

settle_in_month :
    (fuel : ℕ) (y : ℤ) (m d : ℕ)
    → 0 < fuel
    → 1 ≤ d
    → d ≤ days_in y m
    → settle fuel y m (pos d) ≡ (y, m, d)
unfolding settle
settle_in_month zero y m d h lo hi = absurd (omega arith)
settle_in_month (suc fuel) y m d h lo hi =
    rw (le→ltb (d + 0) (1 + 0) (omega arith), le→ltb (days_in y m + 0) (d + 0) (omega arith))

month_from_zero : (m : ℕ) → 1 ≤ m → pos m -ℤ pos 1 ≡ pos (m - 1)
unfolding ◌-ℤ◌
month_from_zero m h = ground arith

-- `time.Date` on the fields of a civil time is that time.
pub date-IsCivil :
    (t : Time)
    → IsCivil t
    → date t.year
        (pos t.month)
        (pos t.day)
        (pos t.hour)
        (pos t.minute)
        (pos t.second)
        (pos t.nanosecond)
        t.location
      ≡ t
unfolding date
date-IsCivil t c =
    let back : t.month - 1 + 1 ≡ t.month = omega arith in
    rw (
      month_from_zero t.month c.month_pos,
      no_carry t.year (t.month - 1) 12 (omega arith),
      floor_mod-lt (t.month - 1) 12 (omega arith),
      back,
      no_carry (pos t.second) t.nanosecond 1_000_000_000 c.nanosecond_lt,
      no_carry (pos t.minute) t.second 60 c.second_lt,
      no_carry (pos t.hour) t.minute 60 c.minute_lt,
      no_carry (pos t.day) t.hour 24 c.hour_lt,
      floor_mod-lt t.hour 24 c.hour_lt,
      floor_mod-lt t.minute 60 c.minute_lt,
      floor_mod-lt t.second 60 c.second_lt,
      floor_mod-lt t.nanosecond 1_000_000_000 c.nanosecond_lt,
      settle_in_month (t.day + 0 + 1) t.year t.month t.day (omega arith) c.day_pos c.day_le,
    )
