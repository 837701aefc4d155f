-- ===== src/Session/Schema/Indexes/Sorted.antt =====
-- `sort.SliceStable` as modelled: the result is in order, and elements of equal keys are the ones
-- that were there, in the order in which they came.
use gocubrid.Prelude.{
  ℤ, ◌+◌, ◌≡◌, refl, ap, ◌∙◌, Bool, true, false, Bool-cases, inl, inr, List, [], ◌∷◌, All, ltb_ℤ,
  pos_part, neg_part, ◌==◌, if◌then◌else◌, arith,
}
use gocubrid.Session.Schema.Indexes.{insert_stable, sort_stable}

-- `a == b` of two integers.
abbrev pub same_ℤ : ℤ → ℤ → Bool
same_ℤ a b = pos_part a + neg_part b == pos_part b + neg_part a

swapped {ℓ} :
    {A : Type ℓ} (a b : Bool) (x y : A) (t : List A)
    → (a ≡ true → b ≡ false)
    → (if a then y ∷ (if b then x ∷ t else t) else (if b then x ∷ t else t))
      ≡ (if b then x ∷ (if a then y ∷ t else t) else (if a then y ∷ t else t))
swapped true true x y t h = absurd (let e = h refl in cc)
swapped true false x y t h = refl
swapped false true x y t h = refl
swapped false false x y t h = refl

module _ {ℓ} {A : Type ℓ} (key : A → ℤ) where
  -- The elements of one key, in their order.
  abbrev pub with_key : ℤ → List A → List A
  with_key v [] = []
  with_key v (x ∷ xs) = if same_ℤ (key x) v then x ∷ with_key v xs else with_key v xs

  abbrev pub IsSorted : List A → Type 0
  IsSorted [] = Unit
  IsSorted (x ∷ xs) = All (λ y. ltb_ℤ (key y) (key x) ≡ false) xs × IsSorted xs

  less-not_same :
      (v : ℤ) (x y : A)
      → ltb_ℤ (key y) (key x) ≡ true
      → same_ℤ (key y) v ≡ true
      → same_ℤ (key x) v ≡ false
  less-not_same v x y less same = ground arith

  insert-with_key :
      (v : ℤ) (x : A) (xs : List A) → with_key v (insert_stable key x xs) ≡ with_key v (x ∷ xs)
  unfolding insert_stable
  insert-with_key v x [] = refl
  insert-with_key v x (y ∷ ys) = elim (Bool-cases (ltb_ℤ (key y) (key x))) [
    | inl less ↦
        simp (less, insert-with_key v x ys)
          (swapped (same_ℤ (key y) v) (same_ℤ (key x) v) x y (with_key v ys)
            (λ h. less-not_same v x y less h))
    | inr e ↦ simp (e)
  ]

  insert-All :
      (P : A → Type 0) (x : A) (xs : List A) → P x → All P xs → All P (insert_stable key x xs)
  unfolding insert_stable
  insert-All P x [] h hs = (h, tt)
  insert-All P x (y ∷ ys) h hs =
      elim (ltb_ℤ (key y) (key x))
        as (λ b. All P (if b then y ∷ insert_stable key x ys else x ∷ y ∷ ys)) [
          | true ↦ (hs.0, insert-All P x ys h hs.1)
          | false ↦ (h, hs)
        ]

  not_less_trans :
      (x y z : A)
      → ltb_ℤ (key y) (key x) ≡ false
      → ltb_ℤ (key z) (key y) ≡ false
      → ltb_ℤ (key z) (key x) ≡ false
  not_less_trans x y z h k = ground arith

  less-not_less : (x y : A) → ltb_ℤ (key y) (key x) ≡ true → ltb_ℤ (key x) (key y) ≡ false
  less-not_less x y h = ground arith

  above :
      (x y : A) (ys : List A)
      → ltb_ℤ (key y) (key x) ≡ false
      → All (λ z. ltb_ℤ (key z) (key y) ≡ false) ys
      → All (λ z. ltb_ℤ (key z) (key x) ≡ false) ys
  above x y [] h k = tt
  above x y (z ∷ ys) h k = (not_less_trans x y z h k.0, above x y ys h k.1)

  insert-IsSorted : (x : A) (xs : List A) → IsSorted xs → IsSorted (insert_stable key x xs)
  unfolding insert_stable
  insert-IsSorted x [] s = (tt, tt)
  insert-IsSorted x (y ∷ ys) s = elim (Bool-cases (ltb_ℤ (key y) (key x))) [
    | inl less ↦ rw (less) (
      insert-All (λ z. ltb_ℤ (key z) (key y) ≡ false) x ys (less-not_less x y less) s.0,
      insert-IsSorted x ys s.1,
    )
    | inr e ↦ rw (e) ((e, above x y ys e s.0), s)
  ]

  -- Sorting puts the elements in order of their keys, and keeps, for every key, the elements that
  -- have it in the order in which they came.
  pub sort_stable-IsSorted :
      (xs : List A)
      → IsSorted (sort_stable key xs) × ((v : ℤ) → with_key v (sort_stable key xs) ≡ with_key v xs)
  unfolding sort_stable
  sort_stable-IsSorted [] = (tt, λ v. refl)
  sort_stable-IsSorted (x ∷ xs) =
      let (s, kept) = sort_stable-IsSorted xs in
      (
        insert-IsSorted x (sort_stable key xs) s,
        λ v.
            insert-with_key v x (sort_stable key xs)
            ∙ ap (λ t. if same_ℤ (key x) v then x ∷ t else t) (kept v),
      )
