-- ===== src/Session/Schema/Indexes/Places.antt =====
-- Adding one row to the groups: the place of its name, and the columns at that place.
use gocubrid.Prelude.{
  ℕ, suc, ◌≡◌, refl, ap, ◌∙◌, ◌⊎◌, subst, inl, inr, Bool, true, false, List, [], ◌∷◌, ◌++◌, length,
  get_or, set, map, Option, none, some, if◌then◌else◌, arith,
}
use gocubrid.Bytes.{Bytes, same_bytes, same_bytes_iff}
use gocubrid.Session.Rows.{Row}
use gocubrid.Session.Schema.Indexes.{IndexInfo, KeyCol}
use gocubrid.Session.Schema.Indexes.Grouped.{row_name, col_of, add_col, place_in, Distinct, shifted}

pub same_bytes_refl : (a : Bytes) → same_bytes a a ≡ true
same_bytes_refl a = (same_bytes_iff a a).1 refl

pub same_bytes_comm : (a b : Bytes) → same_bytes a b ≡ same_bytes b a
same_bytes_comm a b = ground (arith, same_bytes_iff a b, same_bytes_iff b a)

pub absent-cons :
    (b : Bool) (p : Option ℕ) → (if b then some 0 else shifted p) ≡ none → (b ≡ false) × (p ≡ none)
absent-cons true p h = absurd (cc)
absent-cons false (some i) h = absurd (cc)
absent-cons false none h = (refl, refl)

pub placed-cons :
    (b : Bool) (p : Option ℕ) (i : ℕ)
    → (if b then some 0 else shifted p) ≡ some i
    → ((b ≡ true) × (i ≡ 0)) ⊎ ((b ≡ false) × ((j : ℕ) × (p ≡ some j) × (i ≡ suc j)))
placed-cons true p i h = inl (refl, cc)
placed-cons false (some j) i h = inr (refl, (j, refl, cc))
placed-cons false none i h = absurd (cc)

module _ (row : Row) (f : Bytes → List KeyCol) where
  -- Where the name is not placed, no column is added.
  pub map-absent :
      (xs : List IndexInfo)
      → place_in (row_name row) xs ≡ none
      → map (λ x. add_col x.name row (f x.name)) xs ≡ map (λ x. f x.name) xs
  map-absent [] h = refl
  map-absent (x ∷ xs) h =
      let (other, rest) = absent-cons _ (place_in (row_name row) xs) h in
      simp (other) (ap (λ t. f x.name ∷ t) (map-absent xs rest))

  -- Where it is, a column is added at its place and nowhere else.
  pub map-placed :
      (xs : List IndexInfo) (i : ℕ)
      → Distinct xs
      → place_in (row_name row) xs ≡ some i
      → let cols = map (λ x. f x.name) xs in
        map (λ x. add_col x.name row (f x.name)) xs
        ≡ set cols i (get_or cols i [] ++ col_of row (length (get_or cols i [])) ∷ [])
  map-placed [] i d h = absurd (cc)
  map-placed (x ∷ xs) i d h =
      elim (placed-cons (same_bytes x.name (row_name row)) (place_in (row_name row) xs) i h) [
        | inl (here, e) ↦
            let name = (same_bytes_iff x.name (row_name row)).0 here in
            let rest = map-absent xs (subst (λ n. place_in n xs ≡ none) name d.0) in
            rw (here, e) (ap (λ t. (f x.name ++ col_of row (length (f x.name)) ∷ []) ∷ t) rest)
        | inr (other, (j, p, e)) ↦ rw (other, e) (ap (λ t. f x.name ∷ t) (map-placed xs j d.1 p))
      ]

module _ {ℓ} {A : Type ℓ} where
  pub set-end : (xs : List A) (y v : A) → set (xs ++ y ∷ []) (length xs) v ≡ xs ++ v ∷ []
  set-end [] y v = refl
  set-end (x ∷ xs) y v = ap (λ t. x ∷ t) (set-end xs y v)

  pub get_or-end : (xs : List A) (y d : A) → get_or (xs ++ y ∷ []) (length xs) d ≡ y
  get_or-end [] y d = refl
  get_or-end (x ∷ xs) y d = get_or-end xs y d

module _ {ℓ κ} {A : Type ℓ} {B : Type κ} where
  pub map-ext : (f g : A → B) (xs : List A) → ((x : A) → f x ≡ g x) → map f xs ≡ map g xs
  map-ext f g [] h = refl
  map-ext f g (x ∷ xs) h = cc (h x, map-ext f g xs h)

  pub map-append : (f : A → B) (xs ys : List A) → map f (xs ++ ys) ≡ map f xs ++ map f ys
  map-append f [] ys = refl
  map-append f (x ∷ xs) ys = ap (λ t. f x ∷ t) (map-append f xs ys)

-- The place of a name among indexes and a last one.
abbrev pub or_last : Option ℕ → Bool → ℕ → Option ℕ
or_last (some i) b n = some i
or_last none b n = if b then some n else none

pub or_last-false : (p : Option ℕ) (n : ℕ) → p ≡ or_last p false n
or_last-false (some i) n = refl
or_last-false none n = refl

pub none-or_last :
    (p : Option ℕ) (b : Bool) (n : ℕ) → or_last p b n ≡ none → (p ≡ none) × (b ≡ false)
none-or_last (some i) b n h = absurd (cc)
none-or_last none true n h = absurd (cc)
none-or_last none false n h = (refl, refl)

shifted-or_last :
    (p : Option ℕ) (b : Bool) (n : ℕ) → shifted (or_last p b n) ≡ or_last (shifted p) b (suc n)
shifted-or_last (some i) b n = refl
shifted-or_last none true n = refl
shifted-or_last none false n = refl

if-or_last :
    (b : Bool) (p q : Option ℕ) (c : Bool) (n : ℕ)
    → q ≡ or_last p c n
    → (if b then some 0 else shifted q) ≡ or_last (if b then some 0 else shifted p) c (suc n)
if-or_last true p q c n h = refl
if-or_last false p q c n h = ap shifted h ∙ shifted-or_last p c n

if-or_last_base : (b : Bool) → (if b then some 0 else none) ≡ or_last none b 0
if-or_last_base b = refl

pub place_in-snoc :
    (name : Bytes) (xs : List IndexInfo) (x : IndexInfo)
    → place_in name (xs ++ x ∷ []) ≡ or_last (place_in name xs) (same_bytes x.name name) (length xs)
place_in-snoc name [] x = if-or_last_base (same_bytes x.name name)
place_in-snoc name (y ∷ xs) x =
    if-or_last (same_bytes y.name name) (place_in name xs) (place_in name (xs ++ x ∷ []))
      (same_bytes x.name name) (length xs) (place_in-snoc name xs x)

pub Distinct-snoc :
    (xs : List IndexInfo) (x : IndexInfo)
    → Distinct xs
    → place_in x.name xs ≡ none
    → Distinct (xs ++ x ∷ [])
Distinct-snoc [] x d h = (refl, tt)
Distinct-snoc (y ∷ xs) x d h =
    let (other, rest) = absent-cons (same_bytes y.name x.name) (place_in x.name xs) h in
    (
      place_in-snoc y.name xs x ∙ rw (d.0, same_bytes_comm x.name y.name, other) refl,
      Distinct-snoc xs x d.1 rest,
    )
