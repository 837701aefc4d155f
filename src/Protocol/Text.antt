-- ===== src/Protocol/Text.antt =====
-- `trimNul` of codec.go.
use gocubrid.Prelude.{
  ℕ, zero, suc, ◌-◌, ◌≡◌, ◌≢◌, refl, ap, ◌∙◌, sym, append-nil, append_assoc, [], ◌∷◌, ◌++◌, ◌&&◌,
  length, length-append, take, take-append_left, get_or, replicate, ltb, ◌==◌, if◌then◌else◌, arith,
}
use gocubrid.Bytes.{Bytes}

-- One byte goes in each round, so `length b` rounds are enough.
trim_loop : ℕ → Bytes → Bytes
trim_loop zero b = b
trim_loop (suc n) b =
    let rest = trim_loop n (take (length b - 1) b) in
    if ltb 0 (length b) && get_or b (length b - 1) 1 == 0 then rest else b

unfoldable pub trim_nul : Bytes → Bytes
unfolding trim_loop
trim_nul b = trim_loop (length b) b

-- The text is empty, or its last byte is not NUL.
abbrev pub EndsPlain : Bytes → Type 0
EndsPlain s = get_or s (length s - 1) 1 ≢ 0

get_or-append_last : (s : Bytes) (b : ℕ) → get_or (s ++ b ∷ []) (length s) 1 ≡ b
get_or-append_last [] b = refl
get_or-append_last (x ∷ s) b = get_or-append_last s b

trim_loop-append_zero :
    (s : Bytes) → trim_loop (suc (length s)) (s ++ 0 ∷ []) ≡ trim_loop (length s) s
unfolding trim_loop
trim_loop-append_zero s =
    let size : length (s ++ 0 ∷ []) - 1 ≡ length s = omega (arith, length-append s (0 ∷ [])) in
    rw (size, get_or-append_last s 0, take-append_left s (0 ∷ []))
      (ground (arith, length-append s (0 ∷ [])))

pub trim_nul-append_zero : (s : Bytes) → trim_nul (s ++ 0 ∷ []) ≡ trim_nul s
unfolding trim_nul
trim_nul-append_zero s =
    let size : length (s ++ 0 ∷ []) ≡ suc (length s) = omega (arith, length-append s (0 ∷ [])) in
    ap (λ (n : ℕ). trim_loop n (s ++ 0 ∷ [])) size ∙ trim_loop-append_zero s

trim_nul_plain : (s : Bytes) → EndsPlain s → trim_nul s ≡ s
unfolding trim_nul
trim_nul_plain [] h = refl
trim_nul_plain (x ∷ s) h = ground arith

abbrev pub zeros : ℕ → Bytes
zeros k = replicate k 0

zeros_snoc : (k : ℕ) → zeros (suc k) ≡ zeros k ++ 0 ∷ []
zeros_snoc zero = refl
zeros_snoc (suc k) = ap (λ t. 0 ∷ t) (zeros_snoc k)

-- Exactly the trailing NULs go.
pub trim_nul-append_zeros : (s : Bytes) (k : ℕ) → EndsPlain s → trim_nul (s ++ zeros k) ≡ s
trim_nul-append_zeros s zero h = rw (append-nil s) (trim_nul_plain s h)
trim_nul-append_zeros s (suc k) h =
    ap (λ t. trim_nul (s ++ t)) (zeros_snoc k)
    ∙ ap trim_nul (sym (append_assoc s (zeros k) (0 ∷ [])))
    ∙ trim_nul-append_zero (s ++ zeros k)
    ∙ trim_nul-append_zeros s k h
