-- ===== src/Time.antt =====
-- The part of Go's `time` that the driver uses: `time.Date`, which brings fields that are out of
-- range back into range, and the fields of the result. A `Time` is kept as its wall clock fields
-- with their location.
pub mod Valid
use gocubrid.Prelude.{
  ℕ, zero, suc, ℤ, pos, negsuc, ◌+◌, ◌-◌, ◌/◌, ◌%◌, ◌+ℤ◌, ◌-ℤ◌, Bool, true, false, ◌&&◌, ◌||◌, not,
  List, pos_part, neg_part, ltb_ℤ, ◌==◌, if◌then◌else◌,
}
use gocubrid.Bytes.{Bytes}

-- `*time.Location`: UTC, a zone of the database by name, or a fixed offset in seconds.
pub data Location : Type 0 where
  utc : Location
  named : Bytes → Location
  fixed : ℤ → Location

pub record Time : Type 0 where
  pub year : ℤ
  pub month : ℕ
  pub day : ℕ
  pub hour : ℕ
  pub minute : ℕ
  pub second : ℕ
  pub nanosecond : ℕ
  pub location : Location

-- Floor division and remainder by a positive base.
unfoldable pub floor_div : ℤ → ℕ → ℤ
floor_div (pos n) base = pos (n / base)
floor_div (negsuc n) base = negsuc (n / base)

unfoldable pub floor_mod : ℤ → ℕ → ℕ
floor_mod (pos n) base = n % base
floor_mod (negsuc n) base = base - 1 - n % base

unfoldable pub is_leap : ℤ → Bool
unfolding floor_mod
is_leap y = floor_mod y 4 == 0 && (not (floor_mod y 100 == 0) || floor_mod y 400 == 0)

-- Months count from 1.
unfoldable pub days_in : ℤ → ℕ → ℕ
unfolding is_leap
days_in y m =
    if m == 2
    then (if is_leap y then 29 else 28)
    else if m == 4 || m == 6 || m == 9 || m == 11
    then 30
    else 31

abbrev next_month : ℤ → ℕ → ℤ × ℕ
next_month y m = if m == 12 then (y +ℤ pos 1, 1) else (y, m + 1)

abbrev prev_month : ℤ → ℕ → ℤ × ℕ
prev_month y m = if m == 1 then (y -ℤ pos 1, 12) else (y, m - 1)

-- A day before the first or after the last of its month moves to the month beside it.
-- Each round takes 28 days at least, so as many rounds as there are days are enough.
unfoldable pub settle : ℕ → ℤ → ℕ → ℤ → ℤ × ℕ × ℕ
settle zero y m d = (y, m, pos_part d)
settle (suc fuel) y m d =
    let before = prev_month y m in
    let after = next_month y m in
    let back = settle fuel before.0 before.1 (d +ℤ pos (days_in before.0 before.1)) in
    let forth = settle fuel after.0 after.1 (d -ℤ pos (days_in y m)) in
    if ltb_ℤ d (pos 1)
    then back
    else if ltb_ℤ (pos (days_in y m)) d
    then forth
    else (y, m, pos_part d)

-- `time.Date(year, month, day, hour, min, sec, nsec, loc)`.
unfoldable pub date : ℤ → ℤ → ℤ → ℤ → ℤ → ℤ → ℤ → Location → Time
date year month day hour min sec nsec loc =
    let m0 = month -ℤ pos 1 in
    let year' = year +ℤ floor_div m0 12 in
    let month' = floor_mod m0 12 + 1 in
    let sec' = sec +ℤ floor_div nsec 1_000_000_000 in
    let min' = min +ℤ floor_div sec' 60 in
    let hour' = hour +ℤ floor_div min' 60 in
    let day' = day +ℤ floor_div hour' 24 in
    let ymd = settle (pos_part day' + neg_part day' + 1) year' month' day' in
    record {
      year = ymd.0;
      month = ymd.1;
      day = ymd.2;
      hour = floor_mod hour' 24;
      minute = floor_mod min' 60;
      second = floor_mod sec' 60;
      nanosecond = floor_mod nsec 1_000_000_000;
      location = loc;
    }
