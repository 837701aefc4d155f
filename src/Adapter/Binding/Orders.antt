-- ===== src/Adapter/Binding/Orders.antt =====
-- `bindArgs` takes arguments in any order: their ordinals place them.
use gocubrid.Prelude.{
  ℕ, zero, suc, ℤ, pos, negsuc, ◌+◌, ◌-◌, ◌≤◌, ◌≡◌, ◌≢◌, refl, ap, sym, ◌∙◌, false, ◌||◌,
  Bool-cases, inl, inr, List, [], ◌∷◌, length, All, set, replicate, ltb_ℤ, pos_part, if◌then◌else◌,
  arith,
}
use gocubrid.Errors.{named_parameter, ordinal_range}
use gocubrid.Exec.{Result, ok, err, bind, bind-ok}
use gocubrid.Exec.Returns.{ok-injective}
use gocubrid.Exec.Orders.{AllApart, fold_all, fold_all-perm}
use gocubrid.Value.{Value}
use gocubrid.Adapter.{NamedValue, is_named, values_to_named, bind_loop, bind_args}
use gocubrid.Adapter.Binding.{bind_args-values_to_named}
use mathlib.Core.List.{Permᴰ}

set_comm {ℓ} :
    {A : Type ℓ} (xs : List A) (i j : ℕ) (v w : A)
    → i ≢ j
    → set (set xs i v) j w ≡ set (set xs j w) i v
set_comm [] i j v w h = refl
set_comm (x ∷ xs) zero zero v w h = absurd (h refl)
set_comm (x ∷ xs) zero (suc j) v w h = refl
set_comm (x ∷ xs) (suc i) zero v w h = refl
set_comm (x ∷ xs) (suc i) (suc j) v w h = ap (λ t. x ∷ t) (set_comm xs i j v w (λ e. h (ap suc e)))

-- One argument.
abbrev bind_one : ℕ → NamedValue → List Value → Result (List Value)
bind_one n a out =
    if is_named a
    then err (named_parameter a.name)
    else if ltb_ℤ a.ordinal (pos 1) || ltb_ℤ (pos n) a.ordinal
    then err (ordinal_range a.ordinal n)
    else ok (set out (pos_part a.ordinal - 1) a.value)

bind_loop-fold_all :
    (n : ℕ) (l : List NamedValue) (out : List Value)
    → bind_loop n l out ≡ fold_all (bind_one n) l out
unfolding bind_loop
bind_loop-fold_all n [] out = refl
bind_loop-fold_all n (a ∷ l) out = elim (Bool-cases (is_named a)) [
  | inl e ↦ rw (e) refl
  | inr e ↦ elim (Bool-cases (ltb_ℤ a.ordinal (pos 1) || ltb_ℤ (pos n) a.ordinal)) [
    | inl f ↦ rw (e, f) refl
    | inr f ↦ rw (e, f) (bind_loop-fold_all n l (set out (pos_part a.ordinal - 1) a.value))
  ]
]

abbrev Apart : NamedValue → NamedValue → Type 0
Apart a b = a.ordinal ≢ b.ordinal

index_apart :
    (n : ℕ) (i j : ℤ)
    → ltb_ℤ i (pos 1) || ltb_ℤ (pos n) i ≡ false
    → ltb_ℤ j (pos 1) || ltb_ℤ (pos n) j ≡ false
    → i ≢ j
    → (pos_part i - 1) ≢ (pos_part j - 1)
index_apart n (pos i) (pos j) hi hj h e = h (ap pos (ground arith))
index_apart n (pos i) (negsuc j) hi hj h e = absurd (ground arith)
index_apart n (negsuc i) j hi hj h e = absurd (ground arith)

-- What an argument that was placed had to be.
placed :
    (n : ℕ) (a : NamedValue) (out r : List Value)
    → bind_one n a out ≡ ok r
    → (is_named a ≡ false)
      × (ltb_ℤ a.ordinal (pos 1) || ltb_ℤ (pos n) a.ordinal ≡ false)
      × (set out (pos_part a.ordinal - 1) a.value ≡ r)
placed n a out r h = elim (Bool-cases (is_named a)) [
  | inl e ↦ absurd (let k = simp (e) at h in cc)
  | inr e ↦ elim (Bool-cases (ltb_ℤ a.ordinal (pos 1) || ltb_ℤ (pos n) a.ordinal)) [
    | inl f ↦ absurd (let k = simp (e, f) at h in cc)
    | inr f ↦ (e, f, ok-injective (simp (e, f) at h))
  ]
]

bind_one_comm :
    (n : ℕ) (a b : NamedValue) (out r : List Value)
    → Apart a b
    → bind (bind_one n a out) (bind_one n b) ≡ ok r
    → bind (bind_one n b out) (bind_one n a) ≡ ok r
bind_one_comm n a b out r h e =
    let (o, at_a, at_b) = bind-ok (bind_one n a out) (bind_one n b) e in
    let (name_a, in_a, set_a) = placed n a out o at_a in
    let (name_b, in_b, set_b) = placed n b o r at_b in
    let i = pos_part a.ordinal - 1 in
    let j = pos_part b.ordinal - 1 in
    rw (name_b, in_b, name_a, in_a)
      (ap ok (
        set_comm out j i b.value a.value
          (λ k. index_apart n a.ordinal b.ordinal in_a in_b h (sym k))
        ∙ ap (λ t. set t j b.value) set_a
        ∙ set_b))

later :
    (i k : ℕ) (vs : List Value) (a : NamedValue)
    → a.ordinal ≡ pos i
    → i ≤ k
    → All (Apart a) (values_to_named k vs)
unfolding values_to_named
later i k [] a e h = tt
later i k (v ∷ vs) a e h = (
  λ same.
      let at : pos i ≡ pos (suc k) = sym e ∙ same in
      let at' = ap pos_part at in absurd (omega arith),
  later i (k + 1) vs a e (omega arith),
)

values_to_named-Apart : (k : ℕ) (vs : List Value) → AllApart Apart (values_to_named k vs)
unfolding values_to_named
values_to_named-Apart k [] = tt
values_to_named-Apart k (v ∷ vs) =
    let first : NamedValue = record { name = []; ordinal = pos (suc k); value = v } in
    (later (suc k) (k + 1) vs first refl (omega arith), values_to_named-Apart (k + 1) vs)

length-perm : {as' bs : List NamedValue} → Permᴰ as' bs → length as' ≡ length bs
length-perm Permᴰ.nil = refl
length-perm (Permᴰ.cons e d) = ap suc (length-perm d)
length-perm (Permᴰ.swap e f) = refl
length-perm (Permᴰ.trans d d') = length-perm d ∙ length-perm d'

-- Arguments that are numbered from 1 are bound in the order of their numbers, in whatever order they
-- are given.
pub bind_args-perm :
    (vs : List Value) {args : List NamedValue}
    → Permᴰ (values_to_named 0 vs) args
    → bind_args args ≡ ok vs
unfolding bind_args
bind_args-perm vs {args} d =
    let n = length args in
    let same = length-perm d in
    bind_loop-fold_all n args (replicate n Value.null)
    ∙ fold_all-perm (bind_one n) Apart (λ a b h e. h (sym e)) (bind_one_comm n)
        (replicate n Value.null) vs (values_to_named-Apart 0 vs) d
        (sym (bind_loop-fold_all n (values_to_named 0 vs) (replicate n Value.null))
          ∙ ap (λ k. bind_loop k (values_to_named 0 vs) (replicate k Value.null)) (sym same)
          ∙ bind_args-values_to_named vs)
