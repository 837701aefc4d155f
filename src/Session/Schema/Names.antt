-- ===== src/Session/Schema/Names.antt =====
-- Class names and type codes of schema rows.
use gocubrid.Prelude.{
  ℕ, pos, ◌≡◌, ◌≢◌, ◌<◌, ◌/◌, ◌%◌, ◌+◌, ◌*◌, ◌^◌, refl, ap, false, [], ◌∷◌, ◌++◌, All, none, some,
  ◌==◌, to_word, if◌then◌else◌, arith,
}
use gocubrid.Prelude.Bits.{bit_and-0x80, bit_and-0x1f}
use gocubrid.Bytes.{Bytes}
use gocubrid.Session.Schema.{
  or_whole, after_dot, unqualify_name, schema_type_code, low_byte, second_byte,
}

abbrev pub HasNoDot : Bytes → Type 0
HasNoDot s = All (λ b. b ≢ 46) s

not_dot : (b : ℕ) → b ≢ 46 → (b == 46) ≡ false
not_dot b h = ground arith

after_dot-qualified :
    (owner name : Bytes) → HasNoDot owner → after_dot (owner ++ 46 ∷ name) ≡ some name
unfolding after_dot
after_dot-qualified [] name h = refl
after_dot-qualified (b ∷ owner) name h = simp (not_dot b h.0, after_dot-qualified owner name h.1)

after_dot-plain : (name : Bytes) → HasNoDot name → after_dot name ≡ none
unfolding after_dot
after_dot-plain [] h = refl
after_dot-plain (b ∷ name) h = simp (not_dot b h.0, after_dot-plain name h.1)

-- An owner without a dot is stripped from a qualified class name, whatever the name holds, and a
-- name without a dot stays as it is.
pub unqualify_name-owner :
    (owner name : Bytes)
    → HasNoDot owner
    → (unqualify_name (owner ++ 46 ∷ name) ≡ name) × (unqualify_name owner ≡ owner)
unfolding unqualify_name
unqualify_name-owner owner name h = (
  ap (λ t. or_whole t (owner ++ 46 ∷ name)) (after_dot-qualified owner name h),
  ap (λ t. or_whole t owner) (after_dot-plain owner h),
)

-- A domain value that fits two bytes carries its type in the low byte, whole if the high bit of the
-- second byte is set and in five bits if it is not.
pub schema_type_code-two_bytes :
    (high low : ℕ)
    → high < 256
    → low < 256
    → schema_type_code (pos (256 * high + low)) ≡ (if high / 128 % 2 == 1 then low else low % 32)
unfolding schema_type_code low_byte second_byte to_word
schema_type_code-two_bytes high low h l =
    let w : (256 * high + low) % (2 * 2 ^ 63) % 256 ≡ low = omega arith in
    let v : (256 * high + low) % (2 * 2 ^ 63) / 256 % 256 ≡ high = omega arith in
    rw (w, v) (ground (arith, bit_and-0x80 high h, bit_and-0x1f low l))
