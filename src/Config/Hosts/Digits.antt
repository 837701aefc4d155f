-- ===== src/Config/Hosts/Digits.antt =====
-- Writing a number in decimal digits and reading it back.
use gocubrid.Prelude.{
  ℕ, zero, suc, pos, ◌+◌, ◌-◌, ◌*◌, ◌/◌, ◌%◌, ◌^◌, ◌<◌, ◌≡◌, refl, ap, ◌∙◌, true, false, [], ◌∷◌,
  All, some, lt→ltb, ◌==◌, if◌then◌else◌, arith, Bool-cases, inl, inr,
}
use gocubrid.Bytes.{Bytes}
use gocubrid.Config.Hosts.{is_digit, read_digits, read_number, in_range, atoi, put_digits, itoa}

read_digits-step :
    (n c : ℕ) (cs : Bytes)
    → is_digit c ≡ true
    → read_digits n (c ∷ cs) ≡ read_digits (n * 10 + (c - b'0')) cs
unfolding read_digits
read_digits-step n c cs h = rw (h) refl

digit-is_digit : (n : ℕ) → is_digit (n % 10 + b'0') ≡ true
digit-is_digit n = ground arith

last_digit : (n : ℕ) → (n / 10 == 0) ≡ true → 0 * 10 + (n % 10 + b'0' - b'0') ≡ n
last_digit n h = ground arith

fewer : (n fuel : ℕ) → (n / 10 == 0) ≡ false → n < suc fuel → n / 10 < fuel
fewer n fuel e h = ground arith

read_digits-put_digits :
    (fuel n : ℕ) (tail : Bytes)
    → n < fuel
    → read_digits 0 (put_digits fuel n tail) ≡ read_digits n tail
unfolding put_digits
read_digits-put_digits zero n tail h = absurd (omega arith)
read_digits-put_digits (suc fuel) n tail h =
    let d = n % 10 + b'0' in
    elim (Bool-cases (n / 10 == 0)) [
      | inl e ↦ rw (e) (
          read_digits-step 0 d tail (digit-is_digit n)
          ∙ ap (λ k. read_digits k tail) (last_digit n e))
      | inr e ↦ rw (e) (
          read_digits-put_digits fuel (n / 10) (d ∷ tail) (fewer n fuel e h)
          ∙ read_digits-step (n / 10) d tail (digit-is_digit n)
          ∙ ap (λ k. read_digits k tail) (omega arith))
    ]

-- The text of a number: not empty, and digits only.
abbrev pub IsNumber : Bytes → Type 0
IsNumber [] = ⊥
IsNumber (c ∷ cs) = (is_digit c ≡ true) × All (λ b. is_digit b ≡ true) cs

numbers : (s : Bytes) → IsNumber s → All (λ b. is_digit b ≡ true) s
numbers [] h = absurd h
numbers (c ∷ cs) h = h

put_digits-IsNumber :
    (fuel n : ℕ) (tail : Bytes) → IsNumber tail → IsNumber (put_digits fuel n tail)
unfolding put_digits
put_digits-IsNumber zero n tail h = h
put_digits-IsNumber (suc fuel) n tail h =
    let digits = (n % 10 + b'0') ∷ tail in
    let spelled : IsNumber digits = (digit-is_digit n, numbers tail h) in
    elim (n / 10 == 0) as (λ b. IsNumber (if b then digits else put_digits fuel (n / 10) digits)) [
      | true ↦ spelled
      | false ↦ put_digits-IsNumber fuel (n / 10) digits spelled
    ]

first_digit : (fuel n : ℕ) → IsNumber (put_digits (suc fuel) n [])
unfolding put_digits
first_digit fuel n =
    let digits = (n % 10 + b'0') ∷ [] in
    elim (n / 10 == 0) as (λ b. IsNumber (if b then digits else put_digits fuel (n / 10) digits)) [
      | true ↦ (digit-is_digit n, tt)
      | false ↦ put_digits-IsNumber fuel (n / 10) digits (digit-is_digit n, tt)
    ]

pub itoa-IsNumber : (n : ℕ) → IsNumber (itoa n)
unfolding itoa
itoa-IsNumber n = first_digit n n

signless : (c : ℕ) → is_digit c ≡ true → ((c == b'-') ≡ false) × ((c == b'+') ≡ false)
signless c h = (ground arith, ground arith)

atoi-number :
    (s : Bytes) (n : ℕ) → IsNumber s → read_digits 0 s ≡ some n → n < 2 ^ 63 → atoi s ≡ some (pos n)
unfolding atoi read_number in_range
atoi-number [] n h e small = absurd h
atoi-number (c ∷ cs) n h e small =
    let (minus, plus) = signless c h.0 in simp (minus, plus, e, lt→ltb n (2 ^ 63) small)

read_digits-itoa : (n : ℕ) → read_digits 0 (itoa n) ≡ some n
unfolding itoa
read_digits-itoa n = read_digits-put_digits (suc n) n [] (omega arith) ∙ unfold read_digits in refl

read_number-digits : (s : Bytes) → IsNumber s → read_number s ≡ read_digits 0 s
unfolding read_number
read_number-digits [] h = absurd h
read_number-digits (c ∷ cs) h = refl

-- The digits of a number are read back, however large it is.
pub read_number-itoa : (n : ℕ) → read_number (itoa n) ≡ some n
read_number-itoa n = read_number-digits (itoa n) (itoa-IsNumber n) ∙ read_digits-itoa n

-- A number below 2^63 is read back from its text.
pub atoi-itoa : (n : ℕ) → n < 2 ^ 63 → atoi (itoa n) ≡ some (pos n)
atoi-itoa n small = atoi-number (itoa n) n (itoa-IsNumber n) (read_digits-itoa n) small
