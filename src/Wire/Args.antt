-- ===== src/Wire/Args.antt =====
-- What a request is on the wire: its arguments one after the other, each behind its length; and
-- that a peer which splits by those lengths gets back the arguments that were packed.
use gocubrid.Prelude.{
  ℕ, zero, suc, ◌+◌, ◌^◌, ◌≤◌, ◌<◌, ◌≡◌, refl, ap, ◌∙◌, sym, List, [], ◌∷◌, ◌++◌, length,
  length-append, append_assoc, take, drop, take-append_left, drop-append_left, All, Option, none,
  some, arith, ltb, if◌then◌else◌,
}
use mathlib.Core.Option
use gocubrid.Bytes.{Bytes, be_bytes, be_uint, length-be_bytes, be_uint-be_bytes}

-- One argument, and a list of them.
unfoldable pub arg : Bytes → Bytes
arg p = be_bytes 4 (length p) ++ p

unfoldable pub pack : List Bytes → Bytes
pack [] = []
pack (p ∷ ps) = arg p ++ pack ps

-- The peer's view: the length, then that many bytes, until nothing is left. `fuel` bounds the
-- number of arguments.
unfoldable pub split : ℕ → Bytes → Option (List Bytes)
split fuel [] = some []
split zero (b ∷ bs) = none
split (suc fuel) (b ∷ bs) =
    let n = be_uint (take 4 (b ∷ bs)) in
    let rest = drop 4 (b ∷ bs) in
    let more = split fuel (drop n rest) in
    if ltb (length rest) n then none else Option.map (λ ps. take n rest ∷ ps) more

abbrev pub FitsArg : Bytes → Type 0
FitsArg p = length p < 2 ^ 32

pub pack-append : (ps qs : List Bytes) → pack (ps ++ qs) ≡ pack ps ++ pack qs
unfolding pack
pack-append [] qs = refl
pack-append (p ∷ ps) qs =
    ap (λ t. arg p ++ t) (pack-append ps qs) ∙ sym (append_assoc (arg p) (pack ps) (pack qs))

split_step :
    (fuel : ℕ) (h p rest : Bytes)
    → length h ≡ 4
    → be_uint h ≡ length p
    → split (suc fuel) (h ++ (p ++ rest)) ≡ Option.map (λ ps. p ∷ ps) (split fuel rest)
unfolding split
split_step fuel [] p rest e n = absurd (omega arith)
split_step fuel (a ∷ b ∷ c ∷ d ∷ []) p rest e n =
    rw (n, take-append_left p rest, drop-append_left p rest) (ground (arith, length-append p rest))
split_step fuel (a ∷ []) p rest e n = absurd (omega arith)
split_step fuel (a ∷ b ∷ []) p rest e n = absurd (omega arith)
split_step fuel (a ∷ b ∷ c ∷ []) p rest e n = absurd (omega arith)
split_step fuel (a ∷ b ∷ c ∷ d ∷ x ∷ h) p rest e n = absurd (omega arith)

split-arg :
    (fuel : ℕ) (p rest : Bytes)
    → FitsArg p
    → split (suc fuel) (arg p ++ rest) ≡ Option.map (λ ps. p ∷ ps) (split fuel rest)
unfolding arg
split-arg fuel p rest h = rw (append_assoc (be_bytes 4 (length p)) p rest) (
    split_step fuel (be_bytes 4 (length p)) p rest (length-be_bytes 4 (length p))
      (be_uint-be_bytes 4 (length p) h))

-- Splitting what was packed gives the arguments, whatever bytes they hold.
pub split-pack :
    (ps : List Bytes) (fuel : ℕ)
    → All FitsArg ps
    → length ps ≤ fuel
    → split fuel (pack ps) ≡ some ps
unfolding pack
split-pack [] fuel h le = unfold split in refl
split-pack (p ∷ ps) zero h le = absurd (omega arith)
split-pack (p ∷ ps) (suc fuel) h le =
    split-arg fuel p (pack ps) h.0
    ∙ ap (Option.map (λ t. p ∷ t)) (split-pack ps fuel h.1 (omega arith))

pub length-arg : (p : Bytes) → length (arg p) ≡ 4 + length p
unfolding arg
length-arg p = omega (arith, length-append (be_bytes 4 (length p)) p, length-be_bytes 4 (length p))
