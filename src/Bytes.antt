-- ===== src/Bytes.antt =====
-- `encoding/binary`'s big-endian order, as the program uses it: `AppendUint16/32/64` and
-- `PutUint16/32/64` write `be_bytes 2/4/8`, and `Uint16/32/64` read `be_uint`.
use gocubrid.Prelude.{
  ℕ, zero, suc, ◌+◌, ◌*◌, ◌/◌, ◌%◌, ◌^◌, ◌<◌, ◌≡◌, ◌↔◌, refl, ap, Bool, true, false, ◌==◌, ◌||◌,
  if◌then◌else◌, List, [], ◌∷◌, ◌++◌, length, length-append, All, All-append, arith,
}
use native.Mathlib.Nat.{pow-suc}

abbrev pub Bytes : Type 0
Bytes = List ℕ

abbrev pub IsByte : ℕ → Type 0
IsByte b = b < 256

-- The `k` low bytes of `v`, the highest first.
unfoldable pub be_bytes : ℕ → ℕ → Bytes
be_bytes zero v = []
be_bytes (suc k) v = be_bytes k (v / 256) ++ (v % 256) ∷ []

unfoldable pub be_from : ℕ → Bytes → ℕ
be_from acc [] = acc
be_from acc (b ∷ bs) = be_from (acc * 256 + b) bs

unfoldable pub be_uint : Bytes → ℕ
unfolding be_from
be_uint bs = be_from 0 bs

be_from-append : (acc : ℕ) (xs ys : Bytes) → be_from acc (xs ++ ys) ≡ be_from (be_from acc xs) ys
unfolding be_from
be_from-append acc [] ys = refl
be_from-append acc (x ∷ xs) ys = be_from-append (acc * 256 + x) xs ys

pub length-be_bytes : (k v : ℕ) → length (be_bytes k v) ≡ k
unfolding be_bytes
length-be_bytes zero v = refl
length-be_bytes (suc k) v =
    omega (arith, length-append (be_bytes k (v / 256)) (v % 256 ∷ []), length-be_bytes k (v / 256))

pub be_bytes-IsByte : (k v : ℕ) → All IsByte (be_bytes k v)
unfolding be_bytes
be_bytes-IsByte zero v = tt
be_bytes-IsByte (suc k) v =
    All-append IsByte (be_bytes k (v / 256)) (v % 256 ∷ []) (be_bytes-IsByte k (v / 256))
      (omega arith)

-- A number that fits `k` bytes is read back from them.
pub be_uint-be_bytes : (k v : ℕ) → v < 256 ^ k → be_uint (be_bytes k v) ≡ v
unfolding be_uint be_bytes be_from
be_uint-be_bytes zero v h = omega arith
be_uint-be_bytes (suc k) v h = omega (
  arith,
  be_from-append 0 (be_bytes k (v / 256)) (v % 256 ∷ []),
  be_uint-be_bytes k (v / 256) (omega (arith, pow-suc 256 k)),
)

be_from-lt :
    (acc : ℕ) (bs : Bytes) (m : ℕ) → All IsByte bs → acc < m → be_from acc bs < m * 256 ^ length bs
unfolding be_from
be_from-lt acc [] m h lt = omega arith
be_from-lt acc (b ∷ bs) m h lt = omega (
  arith,
  be_from-lt (acc * 256 + b) bs (m * 256) h.1 (omega arith),
  ap (λ (t : ℕ). m * t) (pow-suc 256 (length bs)),
)

pub be_uint-lt : (bs : Bytes) → All IsByte bs → be_uint bs < 256 ^ length bs
unfolding be_uint
be_uint-lt bs h = omega (arith, be_from-lt 0 bs 1 h (omega arith))

-- Equality of strings.
unfoldable pub same_bytes : Bytes → Bytes → Bool
same_bytes [] [] = true
same_bytes (a ∷ as') (b ∷ bs) = let rest = same_bytes as' bs in if a == b then rest else false
same_bytes [] (b ∷ bs) = false
same_bytes (a ∷ as') [] = false

-- A `case` with several strings.
unfoldable pub one_of : Bytes → List Bytes → Bool
one_of s [] = false
one_of s (t ∷ ts) = same_bytes s t || one_of s ts

-- Equality of strings is equality.
pub same_bytes_iff : (a b : Bytes) → (same_bytes a b ≡ true) ↔ (a ≡ b)
unfolding same_bytes
same_bytes_iff [] [] = (λ h. refl, λ h. refl)
same_bytes_iff [] (y ∷ ys) = (λ h. cc, λ h. cc)
same_bytes_iff (x ∷ xs) [] = (λ h. cc, λ h. cc)
same_bytes_iff (x ∷ xs) (y ∷ ys) = ground (arith, same_bytes_iff xs ys)
