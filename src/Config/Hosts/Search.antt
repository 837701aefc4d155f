-- ===== src/Config/Hosts/Search.antt =====
-- Searching a byte in a text that is put together.
use gocubrid.Prelude.{
  ℕ, zero, suc, ◌≡◌, refl, ap, Bool, true, false, ◌||◌, [], ◌∷◌, ◌++◌, length, All, take, Option,
  none, some, ◌==◌, if◌then◌else◌, arith,
}
use gocubrid.Bytes.{Bytes}
use gocubrid.Config.Hosts.{index_of, last_index_of, contains, is_digit}
use gocubrid.Config.Hosts.Digits.{IsNumber}

some-injective : (m n : ℕ) → some m ≡ some n → m ≡ n
some-injective m n h = cc

zero_not_suc : (i : ℕ) → some 0 ≡ some (suc i) → ⊥
zero_not_suc i h = let e = some-injective 0 (suc i) h in omega arith

some-suc : (j i : ℕ) → some (suc j) ≡ some (suc i) → j ≡ i
some-suc j i h = let e = some-injective (suc j) (suc i) h in omega arith

other_digit : (x c : ℕ) → is_digit x ≡ true → is_digit c ≡ false → (x == c) ≡ false
other_digit x c h k = ground arith

pub contains-append :
    (c : ℕ) (xs ys : Bytes) → contains c (xs ++ ys) ≡ contains c xs || contains c ys
unfolding contains
contains-append c [] ys = refl
contains-append c (x ∷ xs) ys = ground (arith, contains-append c xs ys)

pub absent-append :
    (c : ℕ) (xs ys : Bytes)
    → contains c xs ≡ false
    → contains c ys ≡ false
    → contains c (xs ++ ys) ≡ false
absent-append c xs ys h k = rw (contains-append c xs ys, h) k

pub absent-cons :
    (c x : ℕ) (xs : Bytes)
    → contains c (x ∷ xs) ≡ false
    → ((x == c) ≡ false) × (contains c xs ≡ false)
unfolding contains
absent-cons c x xs h = ground arith

pub absent-take : (c n : ℕ) (xs : Bytes) → contains c xs ≡ false → contains c (take n xs) ≡ false
unfolding contains
absent-take c zero xs h = refl
absent-take c (suc n) [] h = h
absent-take c (suc n) (x ∷ xs) h =
    let (x_not, rest) = absent-cons c x xs h in rw (x_not) (absent-take c n xs rest)

pub index_of-append :
    (c : ℕ) (xs ys : Bytes) → contains c xs ≡ false → index_of c (xs ++ c ∷ ys) ≡ some (length xs)
unfolding index_of
index_of-append c [] ys h = ground arith
index_of-append c (x ∷ xs) ys h =
    let (x_not, rest) = absent-cons c x xs h in rw (x_not, index_of-append c xs ys rest) refl

last_index_of-absent : (c : ℕ) (xs : Bytes) → contains c xs ≡ false → last_index_of c xs ≡ none
unfolding last_index_of
last_index_of-absent c [] h = refl
last_index_of-absent c (x ∷ xs) h =
    let (x_not, rest) = absent-cons c x xs h in rw (last_index_of-absent c xs rest, x_not) refl

pub last_index_of-append :
    (c : ℕ) (xs ys : Bytes)
    → contains c ys ≡ false
    → last_index_of c (xs ++ c ∷ ys) ≡ some (length xs)
unfolding last_index_of
last_index_of-append c [] ys h = rw (last_index_of-absent c ys h) (ground arith)
last_index_of-append c (x ∷ xs) ys h = rw (last_index_of-append c xs ys h) refl

index_of-cons :
    (b : Bool) (p : Option ℕ) (i : ℕ)
    → (if b then some 0 else elim p [ some j ↦ some (suc j) | none ↦ none ]) ≡ some (suc i)
    → (b ≡ false) × (p ≡ some i)
index_of-cons true p i h = absurd (zero_not_suc i h)
index_of-cons false (some j) i h = (refl, ap some (some-suc j i h))
index_of-cons false none i h = absurd (cc)

index_of-later :
    (c x : ℕ) (xs : Bytes) (i : ℕ)
    → index_of c (x ∷ xs) ≡ some (suc i)
    → ((x == c) ≡ false) × (index_of c xs ≡ some i)
unfolding index_of
index_of-later c x xs i h = index_of-cons (x == c) (index_of c xs) i h

-- Before the first place of a byte it does not occur.
pub absent-before :
    (c : ℕ) (xs : Bytes) (i : ℕ) → index_of c xs ≡ some i → contains c (take i xs) ≡ false
unfolding contains
absent-before c xs zero h = refl
absent-before c [] (suc i) h = absurd (unfold index_of in cc)
absent-before c (x ∷ xs) (suc i) h =
    let (x_not, rest) = index_of-later c x xs i h in rw (x_not) (absent-before c xs i rest)

digits_absent :
    (c : ℕ) (s : Bytes) → is_digit c ≡ false → All (λ b. is_digit b ≡ true) s → contains c s ≡ false
unfolding contains
digits_absent c [] h n = refl
digits_absent c (x ∷ xs) h n =
    let other : (x == c) ≡ false = other_digit x c n.0 h in rw (other) (digits_absent c xs h n.1)

pub digits-absent : (c : ℕ) (s : Bytes) → is_digit c ≡ false → IsNumber s → contains c s ≡ false
digits-absent c [] h n = absurd n
digits-absent c (x ∷ xs) h n = digits_absent c (x ∷ xs) h n
