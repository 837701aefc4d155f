-- ===== src/Prelude/Int.antt =====
-- Go's signed integers as ℤ over the native numbers, and their two's complement words.
use Prim.Native.Nat.{ℕ, suc, ◌+◌, ◌-◌, ◌*◌, ◌%◌, ◌<◌}
use mathlib.Core.Path.{◌≡◌}
use mathlib.Core.Bool.{Bool, true, false, not}
use native.Mathlib.Omega.{arith}
use native.Mathlib.Nat.{mod-eq_of_lt}
use gocubrid.Prelude.Tests.{ltb, leb, if◌then◌else◌}

-- `negsuc n` is -(n + 1).
pub data ℤ : Type 0 where
  pos : ℕ → ℤ
  negsuc : ℕ → ℤ

abbrev pub pos_part : ℤ → ℕ
pos_part (pos n) = n
pos_part (negsuc n) = 0

abbrev pub neg_part : ℤ → ℕ
neg_part (pos n) = 0
neg_part (negsuc n) = suc n

-- a - b, as an integer.
abbrev pub sub_ℕ : ℕ → ℕ → ℤ
sub_ℕ a b = if leb b a then pos (a - b) else negsuc (b - a - 1)

infixl 65 ◌+ℤ◌ ◌-ℤ◌
infixl 70 ◌*ℤ◌
unfoldable pub ◌+ℤ◌ : ℤ → ℤ → ℤ
a +ℤ b = sub_ℕ (pos_part a + pos_part b) (neg_part a + neg_part b)

unfoldable pub ◌-ℤ◌ : ℤ → ℤ → ℤ
a -ℤ b = sub_ℕ (pos_part a + neg_part b) (neg_part a + pos_part b)

unfoldable pub ◌*ℤ◌ : ℤ → ℤ → ℤ
a *ℤ b =
    sub_ℕ (pos_part a * pos_part b + neg_part a * neg_part b)
      (pos_part a * neg_part b + neg_part a * pos_part b)

abbrev pub ltb_ℤ : ℤ → ℤ → Bool
ltb_ℤ a b = ltb (pos_part a + neg_part b) (pos_part b + neg_part a)

abbrev pub leb_ℤ : ℤ → ℤ → Bool
leb_ℤ a b = not (ltb_ℤ b a)

abbrev pub is_neg : ℤ → Bool
is_neg (pos n) = false
is_neg (negsuc n) = true

-- The word of an integer and the integer of a word, for the modulus `2 * half`:
-- `uint32(v)` and `int32(u)` at `half` = 2 ^ 31.
unfoldable pub to_word : ℕ → ℤ → ℕ
to_word half (pos n) = n % (2 * half)
to_word half (negsuc n) = 2 * half - 1 - n % (2 * half)

unfoldable pub of_word : ℕ → ℕ → ℤ
of_word half u = if ltb u half then pos u else negsuc (2 * half - 1 - u)

abbrev pub FitsWord : ℕ → ℤ → Type 0
FitsWord half (pos n) = n < half
FitsWord half (negsuc n) = n < half

-- An integer within range is read back from its word.
pub of_word-to_word : (half : ℕ) (z : ℤ) → FitsWord half z → of_word half (to_word half z) ≡ z
unfolding of_word to_word
of_word-to_word half (pos n) h = ground (arith, mod-eq_of_lt {n = n} {m = 2 * half} (omega arith))
of_word-to_word half (negsuc n) h =
    ground (arith, mod-eq_of_lt {n = n} {m = 2 * half} (omega arith))

pub to_word-lt : (half : ℕ) (z : ℤ) → 0 < half → to_word half z < 2 * half
unfolding to_word
to_word-lt half (pos n) h = ground arith
to_word-lt half (negsuc n) h = ground arith

pub of_word-FitsWord : (half u : ℕ) → u < 2 * half → FitsWord half (of_word half u)
unfolding of_word
of_word-FitsWord half u h = ground arith
