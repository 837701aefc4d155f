-- ===== src/Exec.antt =====
-- Go functions that return (value, error) are a `Result`; methods that also mutate an object are an
-- `Exec`, where what was written before an error stays written.
pub mod Returns
pub mod Moves
pub mod Costs
pub mod Orders
use gocubrid.Prelude.{ℕ, zero, suc, ◌+◌, Bool, true, false, ◌≡◌, refl, List, [], ◌∷◌, if◌then◌else◌}
use gocubrid.Errors.{Error}

pub data Result {ℓ} (A : Type ℓ) : Type ℓ where
  ok : A → Result A
  err : Error → Result A

abbrev pub Exec {ℓ κ} : Type ℓ → Type κ → Type (ℓ ⊔ κ)
Exec S A = S → Result A × S

-- `fmt.Errorf("…: %w", err)` on a result.
abbrev pub wrap_error {ℓ} : {A : Type ℓ} → (Error → Error) → Result A → Result A
wrap_error f (ok a) = ok a
wrap_error f (err e) = err (f e)

abbrev pub is_ok {ℓ} : {A : Type ℓ} → Result A → Bool
is_ok (ok a) = true
is_ok (err e) = false

module _ {ℓ κ} {S : Type ℓ} {A : Type κ} where
  abbrev pub pure : A → Exec S A
  pure a s = (ok a, s)

  abbrev pub raise : Error → Exec S A
  raise e s = (err e, s)

  abbrev pub lift : Result A → Exec S A
  lift r s = (r, s)

  abbrev pub gets : (S → A) → Exec S A
  gets f s = (ok (f s), s)

  abbrev pub wrap : (Error → Error) → Exec S A → Exec S A
  wrap f m s = (wrap_error f (m s).0, (m s).1)

  -- The result as a value, for a caller that looks at the error itself.
  abbrev pub attempt : Exec S A → Exec S (Result A)
  attempt m s = (ok (m s).0, (m s).1)

module _ {ℓ κ ι} {S : Type ℓ} {A : Type κ} {B : Type ι} where
  abbrev pub continue : Result A → (A → Exec S B) → Exec S B
  continue (ok a) f s = f a s
  continue (err e) f s = (err e, s)

  infixl 5 ◌>>=◌ ◌>>◌
  abbrev pub ◌>>=◌ : Exec S A → (A → Exec S B) → Exec S B
  ◌>>=◌ m f s = continue (m s).0 f (m s).1

  abbrev pub ◌>>◌ : Exec S A → Exec S B → Exec S B
  m >> n = m >>= λ _. n

abbrev pub bind {ℓ κ} : {A : Type ℓ} {B : Type κ} → Result A → (A → Result B) → Result B
bind (ok a) f = f a
bind (err e) f = err e

-- A method that cannot fail.
abbrev pub modify {ℓ} : {S : Type ℓ} → (S → S) → Exec S (Unit {0})
modify f s = (ok tt, f s)

-- `if test { return err }`
abbrev pub check {ℓ} : {S : Type ℓ} → Bool → Error → Exec S (Unit {0})
check true e = raise e
check false e = pure tt

pub wrap_error-ok {ℓ} :
    {A : Type ℓ} (f : Error → Error) {r : Result A} {a : A} → r ≡ ok a → wrap_error f r ≡ ok a
wrap_error-ok f {r = ok b} h = h
wrap_error-ok f {r = err e} h = cc

pub bind-ok {ℓ κ} :
    {A : Type ℓ} {B : Type κ} (r : Result A) (f : A → Result B) {b : B}
    → bind r f ≡ ok b
    → (a : A) × (r ≡ ok a) × (f a ≡ ok b)
bind-ok (ok a) f h = (a, refl, h)
bind-ok (err e) f h = cc

-- `for i := from; i < from+n; i++`: one result for each round, in order, until the first error.
unfoldable pub each {ℓ κ} : {S : Type ℓ} {A : Type κ} → ℕ → ℕ → (ℕ → Exec S A) → Exec S (List A)
each from zero m = pure []
each from (suc n) m = do a ← m from; rest ← each (from + 1) n m; pure (a ∷ rest)

module _ {ℓ κ ι} {S : Type ℓ} {A : Type κ} {B : Type ι} where
  continue-ok :
      (r : Result A) (f : A → Exec S B) (s : S) (b : B)
      → (continue r f s).0 ≡ ok b
      → (a : A) × (r ≡ ok a) × (continue r f s ≡ f a s)
  continue-ok (ok a) f s b h = (a, refl, refl)
  continue-ok (err e) f s b h = absurd (cc)

  -- A sequence that succeeds is its second part, run after its first part succeeded.
  pub >>=-ok :
      (m : Exec S A) (f : A → Exec S B) (s : S) (b : B)
      → ((m >>= f) s).0 ≡ ok b
      → (a : A) × ((m s).0 ≡ ok a) × ((m >>= f) s ≡ f a (m s).1)
  >>=-ok m f s b h = continue-ok (m s).0 f (m s).1 b h

-- `if test { return err }` in front of a method that succeeds.
pub unless-ok {ℓ κ} :
    {S : Type ℓ} {A : Type κ} (b : Bool) (e : Error) (m : Exec S A) (s : S) (a : A)
    → ((if b then raise e else m) s).0 ≡ ok a
    → (if b then raise e else m) s ≡ m s
unless-ok true e m s a h = absurd (cc)
unless-ok false e m s a h = refl

-- The same of a method that was applied to its state.
pub unless-run_ok {ℓ κ} :
    {S : Type ℓ} {A : Type κ} (b : Bool) (e : Error) (s : S) (out : Result A × S) (a : A)
    → (if b then (err e, s) else out).0 ≡ ok a
    → (if b then (err e, s) else out) ≡ out
unless-run_ok true e s out a h = absurd (cc)
unless-run_ok false e s out a h = refl
