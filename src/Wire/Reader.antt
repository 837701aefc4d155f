-- ===== src/Wire/Reader.antt =====
-- `Reader` of binary.go: it walks a response payload. Each method returns its result and the reader
-- that it leaves, also when it fails.
pub mod Reads
pub mod View
pub mod Loops
pub mod Spent
use gocubrid.Prelude.{
  ℕ, ℤ, pos, ◌+◌, ◌-◌, ◌^◌, ◌<◌, ◌≤◌, ◌≡◌, Bool, ◌||◌, List, [], ◌∷◌, ◌++◌, length, take, drop,
  get_or, ltb, leb_ℤ, ◌==◌, is_neg, pos_part, of_word, if◌then◌else◌,
}
use gocubrid.Errors.{Error, short_buffer}
use gocubrid.Exec.{Result, ok, err, Exec, pure, ◌>>=◌}
use gocubrid.Bytes.{Bytes, be_uint}

pub record Reader : Type 0 where
  pub buf : Bytes
  pub off : ℕ

abbrev pub Read {ℓ} : Type ℓ → Type ℓ
Read A = Exec Reader A

abbrev pub new_reader : Bytes → Reader
new_reader p = record { buf = p; off = 0 }

-- `len(r.buf) - r.off`: the offset never passes the end (`IsValid-take` and the rest).
unfoldable pub remaining : Reader → ℕ
remaining r = length r.buf - r.off

-- `r.buf[r.off : r.off+n]`
abbrev slice : Bytes → ℕ → ℕ → Bytes
slice buf off n = take n (drop off buf)

unfoldable pub take_bytes : ℤ → Read Bytes
take_bytes n r =
    if is_neg n || ltb (length r.buf) (r.off + pos_part n)
    then (err short_buffer, r)
    else (ok (slice r.buf r.off (pos_part n)), record r { off = r.off + pos_part n })

unfoldable pub byte : Read ℕ
byte = do b ← take_bytes (pos 1); pure (get_or b 0 0)

unfoldable pub int16 : Read ℤ
int16 = do b ← take_bytes (pos 2); pure (of_word (2 ^ 15) (be_uint b))

unfoldable pub int32 : Read ℤ
int32 = do b ← take_bytes (pos 4); pure (of_word (2 ^ 31) (be_uint b))

unfoldable pub int64 : Read ℤ
int64 = do b ← take_bytes (pos 8); pure (of_word (2 ^ 63) (be_uint b))

-- `Bytes(n)`.
unfoldable pub bytes : ℤ → Read Bytes
bytes n = take_bytes n

-- `b[:len(b)-1]` if the last byte is NUL.
unfoldable pub strip_nul : Bytes → Bytes
strip_nul b = if get_or b (length b - 1) 0 == 0 then take (length b - 1) b else b

unfoldable pub string : Read Bytes
unfolding strip_nul
string = do n ← int32; if leb_ℤ n (pos 0) then pure [] else do b ← take_bytes n; pure (strip_nul b)

-- The offset stands within the buffer.
abbrev pub IsValid : Reader → Type 0
IsValid r = r.off ≤ length r.buf

-- The bytes that a reader has not reached.
abbrev pub unread : Reader → Bytes
unread r = drop r.off r.buf

-- A reader that has walked `front` and has `rest` before it.
abbrev pub at : Bytes → Bytes → Reader
at front rest = record { buf = front ++ rest; off = length front }
