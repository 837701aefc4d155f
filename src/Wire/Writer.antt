-- ===== src/Wire/Writer.antt =====
-- `Writer` of binary.go: one raw function code, then arguments behind an int32 byte length.
use gocubrid.Prelude.{ℕ, ℤ, ◌+◌, ◌%◌, ◌^◌, [], ◌∷◌, ◌++◌, length, to_word}
use gocubrid.Bytes.{Bytes, be_bytes}

pub record Writer : Type 0 where
  pub buf : Bytes

-- A call `w.f(…)` is written `w ▹ f …`.
infixl 2 ◌▹◌
abbrev pub ◌▹◌ {ℓ} : {A : Type ℓ} → Writer → (Writer → A) → A
w ▹ f = f w

abbrev pub new_writer : Writer
new_writer = record { buf = [] }

abbrev write : Bytes → Writer → Writer
write bs w = record { buf = w.buf ++ bs }

unfoldable pub raw_byte : ℕ → Writer → Writer
raw_byte b w = write (b ∷ []) w

unfoldable pub be32 : ℕ → Writer → Writer
be32 v w = write (be_bytes 4 v) w

unfoldable pub arg_int : ℤ → Writer → Writer
unfolding be32
arg_int v w = w ▹ be32 4 ▹ be32 (to_word (2 ^ 31) v)

unfoldable pub arg_byte : ℕ → Writer → Writer
unfolding be32
arg_byte b w = w ▹ be32 1 ▹ write (b ∷ [])

unfoldable pub arg_short : ℤ → Writer → Writer
unfolding be32
arg_short v w = w ▹ be32 2 ▹ write (be_bytes 2 (to_word (2 ^ 15) v))

unfoldable pub arg_long : ℤ → Writer → Writer
unfolding be32
arg_long v w = w ▹ be32 8 ▹ write (be_bytes 8 (to_word (2 ^ 63) v))

-- A float is its IEEE bit pattern, `math.Float32bits` and `math.Float64bits`.
unfoldable pub arg_float : ℕ → Writer → Writer
unfolding be32
arg_float bits w = w ▹ be32 4 ▹ be32 bits

unfoldable pub arg_double : ℕ → Writer → Writer
unfolding be32
arg_double bits w = w ▹ be32 8 ▹ write (be_bytes 8 bits)

unfoldable pub arg_string : Bytes → Writer → Writer
unfolding be32
arg_string s w = w ▹ be32 ((length s + 1) % 2 ^ 32) ▹ write s ▹ write (0 ∷ [])

unfoldable pub arg_bytes : Bytes → Writer → Writer
unfolding be32
arg_bytes p w = w ▹ be32 (length p % 2 ^ 32) ▹ write p

unfoldable pub arg_null : Writer → Writer
unfolding be32
arg_null w = w ▹ be32 0
