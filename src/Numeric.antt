-- ===== src/Numeric.antt =====
-- cubrid/numeric.go: NUMERIC values as their decimal text. `strconv.ParseFloat` and
-- `strconv.FormatFloat`, on IEEE bit patterns, are parameters.
use gocubrid.Prelude.{
  ℕ, suc, ℤ, pos, negsuc, ◌%◌, ◌/◌, ◌^◌, ◌<◌, ◌≡◌, refl, Bool, ◌∷◌, Option, none, some, ◌==◌,
  if◌then◌else◌, lt→ltb, FitsWord,
}
use gocubrid.Errors.{numeric_special, numeric_null, numeric_type, bad_numeric}
use gocubrid.Exec.{Result, ok, err}
use gocubrid.Bytes.{Bytes}
use gocubrid.Value.{Value}
use gocubrid.Config.Hosts.{atoi, itoa, itoa_ℤ, in_range}
use gocubrid.Config.Hosts.Digits.{atoi-itoa, read_number-itoa}

pub record Floats : Type 0 where
  pub parse_float : Bytes → Option ℕ
  pub format_float : ℕ → Bytes

-- `math.IsNaN(v) || math.IsInf(v, 0)`
unfoldable pub is_special : ℕ → Bool
is_special u = u / 2 ^ 52 % 2048 == 2047

-- `Scan`: the text that is stored.
unfoldable pub scan : Floats → Value → Result Bytes
scan lib (Value.string s) = ok s
scan lib (Value.bytes b) = ok b
scan lib (Value.float64 u) =
    if is_special u then err (numeric_special u) else ok (lib.format_float u)
scan lib (Value.int64 n) = ok (itoa_ℤ n)
scan lib Value.null = err numeric_null
scan lib v = err numeric_type

-- `Float64`
unfoldable pub to_float64 : Floats → Bytes → Result ℕ
to_float64 lib n = elim (lib.parse_float n) [ some u ↦ ok u | none ↦ err (bad_numeric n) ]

-- `Value`, and `String`
unfoldable pub to_value : Bytes → Value
to_value n = Value.string n

atoi-negative : (n : ℕ) → n < 2 ^ 63 → atoi (b'-' ∷ itoa (suc n)) ≡ some (negsuc n)
unfolding atoi in_range
atoi-negative n small = rw (read_number-itoa (suc n), lt→ltb n (2 ^ 63) small) refl

-- An int64 that is scanned is stored as text that `strconv.Atoi` reads back as the same number,
-- which a statement that binds the Numeric sends as it is.
pub scan-atoi :
    (lib : Floats) (n : ℤ)
    → FitsWord (2 ^ 63) n
    → (s : Bytes) × (scan lib (Value.int64 n) ≡ ok s)
      × (atoi s ≡ some n)
      × (scan lib (to_value s) ≡ ok s)
unfolding scan to_value itoa_ℤ
scan-atoi lib (pos n) small = (itoa n, refl, atoi-itoa n small, refl)
scan-atoi lib (negsuc n) small = (b'-' ∷ itoa (suc n), refl, atoi-negative n small, refl)
