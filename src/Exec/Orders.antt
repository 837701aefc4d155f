-- ===== src/Exec/Orders.antt =====
-- A loop of fallible steps over a list whose order does not matter, because any two steps that stand
-- apart from each other commute.
use gocubrid.Prelude.{◌≡◌, subst, List, [], ◌∷◌, All}
use gocubrid.Exec.{Result, ok, bind, bind-ok}
use mathlib.Core.List.{Permᴰ}

module _ {ℓ ι} {A : Type ℓ} (P : A → Type ι) where
  pub All-perm : {ps qs : List A} → Permᴰ ps qs → All P ps → All P qs
  All-perm Permᴰ.nil h = h
  All-perm (Permᴰ.cons e d) h = (subst P e h.0, All-perm d h.1)
  All-perm (Permᴰ.swap e f) h = (subst P f h.1.0, (subst P e h.0, h.1.1))
  All-perm (Permᴰ.trans d d') h = All-perm d' (All-perm d h)

-- Any two elements of a list stand apart.
abbrev pub AllApart {ℓ ι} : {A : Type ℓ} → (A → A → Type ι) → List A → Type ι
AllApart R [] = Unit {ι}
AllApart R (p ∷ ps) = All (R p) ps × AllApart R ps

-- The loop: each step changes a state or ends it with an error.
abbrev pub fold_all {ℓ κ} : {A : Type ℓ} {B : Type κ} → (A → B → Result B) → List A → B → Result B
fold_all step [] b = ok b
fold_all step (a ∷ l) b = bind (step a b) (λ c. fold_all step l c)

module _ {ℓ ι} {A : Type ℓ} (R : A → A → Type ι) (flip : (a b : A) → R a b → R b a) where
  AllApart-perm : {ps qs : List A} → Permᴰ ps qs → AllApart R ps → AllApart R qs
  AllApart-perm Permᴰ.nil h = h
  AllApart-perm (Permᴰ.cons {l₂ = l} e d) h =
      (subst (λ x. All (R x) l) e (All-perm _ d h.0), AllApart-perm d h.1)
  AllApart-perm (Permᴰ.swap {a} {b} {b' = b'} {l = l} e f) h =
      subst (λ x. AllApart R (x ∷ b' ∷ l)) f
        (subst (λ y. AllApart R (b ∷ y ∷ l)) e ((flip a b h.0.0, h.1.0), (h.0.1, h.1.1)))
  AllApart-perm (Permᴰ.trans d d') h = AllApart-perm d' (AllApart-perm d h)

module _ {ℓ κ ι} {A : Type ℓ} {B : Type κ} (step : A → B → Result B) (R : A → A → Type ι)
    (flip : (a b : A) → R a b → R b a)
    (comm : (a b : A) (c d : B)
      → R a b
      → bind (step a c) (step b) ≡ ok d
      → bind (step b c) (step a) ≡ ok d) where
  fold_all-cons :
      (a : A) (l m : List A) (b r : B)
      → ((c : B) → fold_all step l c ≡ ok r → fold_all step m c ≡ ok r)
      → fold_all step (a ∷ l) b ≡ ok r
      → fold_all step (a ∷ m) b ≡ ok r
  fold_all-cons a l m b r h e =
      let (c, got, more) = bind-ok (step a b) (λ c. fold_all step l c) e in rw (got) (h c more)

  fold_all-swap :
      (a b : A) (l : List A) (c r : B)
      → R a b
      → fold_all step (a ∷ b ∷ l) c ≡ ok r
      → fold_all step (b ∷ a ∷ l) c ≡ ok r
  fold_all-swap a b l c r h e =
      let (d, got, more) = bind-ok (step a c) (λ d. bind (step b d) (λ x. fold_all step l x)) e in
      let (f, got', rest) = bind-ok (step b d) (λ x. fold_all step l x) more in
      let both : bind (step a c) (step b) ≡ ok f = rw (got) got' in
      let (g, first, second) = bind-ok (step b c) (step a) (comm a b c f h both) in
      rw (first, second) rest

  -- A loop that succeeds in one order of its elements gives the same in every other order.
  pub fold_all-perm :
      {ps qs : List A} (b r : B)
      → AllApart R ps
      → Permᴰ ps qs
      → fold_all step ps b ≡ ok r
      → fold_all step qs b ≡ ok r
  fold_all-perm b r h Permᴰ.nil e = e
  fold_all-perm b r h (Permᴰ.cons {a} {l₁ = l} {l₂ = m} same d) e =
      subst (λ x. fold_all step (x ∷ m) b ≡ ok r) same
        (fold_all-cons a l m b r (λ c. fold_all-perm c r h.1 d) e)
  fold_all-perm b r h (Permᴰ.swap {a} {b = x} {b' = b'} {l = l} f g) e =
      subst (λ y. fold_all step (y ∷ b' ∷ l) b ≡ ok r) g
        (subst (λ y. fold_all step (x ∷ y ∷ l) b ≡ ok r) f (fold_all-swap a x l b r h.0.0 e))
  fold_all-perm b r h (Permᴰ.trans d d') e =
      fold_all-perm b r (AllApart-perm R flip d h) d' (fold_all-perm b r h d e)
