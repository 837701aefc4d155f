-- ===== src/Protocol/Codec/DateTime/RoundTrip.antt =====
-- A DATETIME that was encoded is decoded to the same time.
use gocubrid.Prelude.{
  ℕ, ℤ, pos, ◌/◌, ◌%◌, ◌^◌, ◌≡◌, refl, ap, subst, [], ◌∷◌, length, arith, of_word, to_word,
  of_word-to_word, to_word-lt, FitsWord, ◌*ℤ◌,
}
use gocubrid.Exec.{ok}
use gocubrid.Bytes.{Bytes, be_uint, be_bytes, be_uint-be_bytes}
use gocubrid.Time.{Time, utc, date}
use gocubrid.Time.Valid.{IsCivil, date-IsCivil, days_in-le}
use gocubrid.Protocol.Codec.DateTime.{decode_date_time, encode_date_time, fields_of, wanted}

-- What a DATETIME can hold: a civil time in UTC, a year of 16 bits, whole milliseconds.
pub record FitsDatetime (t : Time) : Type 0 where
  pub civil : IsCivil t
  pub year_fits : FitsWord (2 ^ 15) t.year
  pub whole : t.nanosecond % 1_000_000 ≡ 0
  pub in_utc : t.location ≡ utc

abbrev two_bytes : ℕ → Bytes
two_bytes u = (u / 256 % 256) ∷ (u % 256) ∷ []

two_bytes-value :
    (v : ℤ) → FitsWord (2 ^ 15) v → of_word (2 ^ 15) (be_uint (two_bytes (to_word (2 ^ 15) v))) ≡ v
unfolding be_bytes
two_bytes-value v h =
    rw (be_uint-be_bytes 2 (to_word (2 ^ 15) v) (to_word-lt (2 ^ 15) v (omega arith)))
      (of_word-to_word (2 ^ 15) v h)

millis : (n : ℕ) → n % 1_000_000 ≡ 0 → pos (n / 1_000_000) *ℤ pos 1_000_000 ≡ pos n
unfolding ◌*ℤ◌
millis n h = ground arith

pub decode_date_time-encode_date_time :
    (t : Time) → FitsDatetime t → decode_date_time 22 (encode_date_time t) ≡ ok t
unfolding decode_date_time encode_date_time be_bytes fields_of wanted
decode_date_time-encode_date_time t f =
    let c = f.civil in
    let day_small = days_in-le t.year t.month in
    rw
      (
        two_bytes-value t.year f.year_fits,
        two_bytes-value (pos t.month) (omega arith),
        two_bytes-value (pos t.day) (omega arith),
        two_bytes-value (pos t.hour) (omega arith),
        two_bytes-value (pos t.minute) (omega arith),
        two_bytes-value (pos t.second) (omega arith),
        two_bytes-value (pos (t.nanosecond / 1_000_000)) (omega arith),
        millis t.nanosecond f.whole,
      )
      (ap ok (
        subst
          (λ l.
            date t.year (pos t.month) (pos t.day) (pos t.hour) (pos t.minute) (pos t.second)
              (pos t.nanosecond) l
            ≡ t)
          f.in_utc (date-IsCivil t c)))

pub length-encode_date_time : (t : Time) → length (encode_date_time t) ≡ 14
unfolding encode_date_time be_bytes
length-encode_date_time t = refl
