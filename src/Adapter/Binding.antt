-- ===== src/Adapter/Binding.antt =====
-- `bindArgs`: bind values by their ordinals.
pub mod Orders
use gocubrid.Prelude.{
  ℕ, suc, pos, ◌+◌, ◌-◌, ◌≡◌, refl, ap, ◌∙◌, false, ◌||◌, List, [], ◌∷◌, ◌++◌, length,
  length-append, append_assoc, set, replicate, ltb_ℤ, arith,
}
use gocubrid.Exec.{ok}
use gocubrid.Value.{Value}
use gocubrid.Adapter.{is_named, values_to_named, bind_loop, bind_args}

set-append {ℓ} :
    {A : Type ℓ} (front : List A) (x v : A) (rest : List A)
    → set (front ++ x ∷ rest) (length front) v ≡ front ++ v ∷ rest
set-append [] x v rest = refl
set-append (y ∷ front) x v rest = ap (λ t. y ∷ t) (set-append front x v rest)

length-values_to_named : (i : ℕ) (vs : List Value) → length (values_to_named i vs) ≡ length vs
unfolding values_to_named
length-values_to_named i [] = refl
length-values_to_named i (v ∷ vs) = ap suc (length-values_to_named (i + 1) vs)

bind_loop-values :
    (n : ℕ) (front vs : List Value)
    → n ≡ length front + length vs
    → bind_loop n (values_to_named (length front) vs) (front ++ replicate (length vs) Value.null)
      ≡ ok (front ++ vs)
unfolding bind_loop values_to_named is_named
bind_loop-values n front [] h = refl
bind_loop-values n front (v ∷ vs) h =
    let l = length front in
    let good : ltb_ℤ (pos (suc l)) (pos 1) || ltb_ℤ (pos n) (pos (suc l)) ≡ false = ground arith in
    let index : suc l - 1 ≡ l = omega arith in
    let size : length (front ++ v ∷ []) ≡ l + 1 = omega (arith, length-append front (v ∷ [])) in
    let rest = bind_loop-values n (front ++ v ∷ []) vs (omega arith) in
    let rest' : bind_loop n (values_to_named (l + 1) vs)
          (front ++ v ∷ replicate (length vs) Value.null)
        ≡ ok (front ++ v ∷ vs) =
      simp (append_assoc, size) at rest in
    simp (good, index, set-append, rest')

-- Positional arguments are bound in their order: numbering values from 1 and binding them by those
-- ordinals gives the values back.
pub bind_args-values_to_named : (vs : List Value) → bind_args (values_to_named 0 vs) ≡ ok vs
unfolding bind_args
bind_args-values_to_named vs =
    ap (λ n. bind_loop n (values_to_named 0 vs) (replicate n Value.null))
      (length-values_to_named 0 vs)
    ∙ bind_loop-values (length vs) [] vs (omega arith)
