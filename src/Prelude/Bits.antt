-- ===== src/Prelude/Bits.antt =====
-- The masks of the wire format on one byte, as arithmetic; each is a table checked by evaluation.
use Prim.Native.Nat.{ℕ, zero, suc, ◌*◌, ◌/◌, ◌%◌, ◌<◌, bit_and}
use mathlib.Core.Path.{◌≡◌, refl}
use mathlib.Core.Bool.{Bool, true, ◌&&◌}
use native.Mathlib.Omega.{arith}
use gocubrid.Prelude.Tests.{◌==◌, ==_iff}

all_below : ℕ → (ℕ → Bool) → Bool
all_below zero p = true
all_below (suc n) p = p n && all_below n p

all_below→true : (n : ℕ) (p : ℕ → Bool) (x : ℕ) → all_below n p ≡ true → x < n → p x ≡ true
unfolding all_below
all_below→true zero p x h lt = absurd (omega arith)
all_below→true (suc n) p x h lt = ground (arith, all_below→true n p x)

agree : (f g : ℕ → ℕ) → all_below 256 (λ x. f x == g x) ≡ true → (b : ℕ) → b < 256 → f b ≡ g b
agree f g table b h = (==_iff (f b) (g b)).0 (all_below→true 256 (λ x. f x == g x) b table h)

pub bit_and-0x40 : (b : ℕ) → b < 256 → bit_and b 0x40 ≡ b / 64 % 2 * 64
unfolding all_below
bit_and-0x40 = agree (λ b. bit_and b 0x40) (λ b. b / 64 % 2 * 64) refl

pub bit_and-0x3f : (b : ℕ) → b < 256 → bit_and b 0x3f ≡ b % 64
unfolding all_below
bit_and-0x3f = agree (λ b. bit_and b 0x3f) (λ b. b % 64) refl

pub bit_and-0x80 : (b : ℕ) → b < 256 → bit_and b 0x80 ≡ b / 128 * 128
unfolding all_below
bit_and-0x80 = agree (λ b. bit_and b 0x80) (λ b. b / 128 * 128) refl

pub bit_and-0x60 : (b : ℕ) → b < 256 → bit_and b 0x60 ≡ b / 32 % 4 * 32
unfolding all_below
bit_and-0x60 = agree (λ b. bit_and b 0x60) (λ b. b / 32 % 4 * 32) refl

pub bit_and-0x07 : (b : ℕ) → b < 256 → bit_and b 0x07 ≡ b % 8
unfolding all_below
bit_and-0x07 = agree (λ b. bit_and b 0x07) (λ b. b % 8) refl

pub bit_and-0x1f : (b : ℕ) → b < 256 → bit_and b 0x1f ≡ b % 32
unfolding all_below
bit_and-0x1f = agree (λ b. bit_and b 0x1f) (λ b. b % 32) refl
