-- ===== src/Wire/Reader/View.antt =====
-- What `Reader` promises, without its buffer and offset: a list of bytes still to be read.
use gocubrid.Prelude.{
  ℤ, ◌≡◌, ◌||◌, length, take, drop, length-drop, length-take, drop-drop, take-append-drop, arith,
  ltb, is_neg, pos_part, if◌then◌else◌,
}
use gocubrid.Errors.{short_buffer}
use gocubrid.Exec.{Result, ok, err}
use gocubrid.Bytes.{Bytes}
use gocubrid.Wire.Reader.{Reader, IsValid, unread, at, take_bytes}

-- The specification of `take`: the first `n` bytes, or nothing and an error.
pub take_front : ℤ → Bytes → Result Bytes × Bytes
take_front n xs =
    if is_neg n || ltb (length xs) (pos_part n)
    then (err short_buffer, xs)
    else (ok (take (pos_part n) xs), drop (pos_part n) xs)

-- The offset stays within the buffer.
pub take_bytes-IsValid : (n : ℤ) (r : Reader) → IsValid r → IsValid (take_bytes n r).1
unfolding take_bytes
take_bytes-IsValid n r v = ground arith

-- `take` on a valid reader is `take_front` on the bytes that it has not reached.
pub take_bytes-view :
    (n : ℤ) (r : Reader)
    → IsValid r
    → ◌≡◌ {A = Result Bytes × Bytes}
        ((take_bytes n r).0, unread (take_bytes n r).1)
        (take_front n (unread r))
unfolding take_bytes take_front
take_bytes-view n r v = ground (arith, length-drop r.off r.buf, drop-drop r.off (pos_part n) r.buf)

-- Every valid reader stands at a seam of its buffer.
pub at-unread : (r : Reader) → IsValid r → at (take r.off r.buf) (unread r) ≡ r
at-unread r v = ground (arith, take-append-drop r.off r.buf, length-take r.off r.buf)
