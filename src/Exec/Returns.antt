-- ===== src/Exec/Returns.antt =====
-- Postconditions: what holds of the value, if a method returns one. One rule for each way to build
-- a method.
use gocubrid.Prelude.{
  ℕ, zero, suc, ◌+◌, Bool, true, false, ◌≡◌, refl, ap, subst, [], ◌∷◌, length, All, if◌then◌else◌,
}
use gocubrid.Errors.{Error}
use gocubrid.Exec.{Result, ok, err, Exec, pure, raise, lift, each, ◌>>=◌, continue}

-- Whatever `m` returns, `P` holds of it.
pub record Returns {ℓ κ ι} {S : Type ℓ} {A : Type κ} (P : A → Type ι) (m : Exec S A)
    : Type (ℓ ⊔ κ ⊔ ι) where
  pub at : (s : S) (a : A) → (m s).0 ≡ ok a → P a

pub ok-injective {ℓ} : {A : Type ℓ} {a b : A} → ok a ≡ ok b → a ≡ b
ok-injective h = cc

module _ {ℓ κ ι} {S : Type ℓ} {A : Type κ} {P : A → Type ι} where
  pub Returns-pure : (a : A) → P a → Returns {S = S} P (pure a)
  Returns-pure a p = record { at = λ s b h. subst P (ok-injective h) p }

  pub Returns-raise : (e : Error) → Returns {S = S} P (raise e)
  Returns-raise e = record { at = λ s b h. absurd (cc) }

  pub Returns-lift : (r : Result A) → ((a : A) → r ≡ ok a → P a) → Returns {S = S} P (lift r)
  Returns-lift r p = record { at = λ s b h. p b h }

  pub Returns-if :
      (b : Bool) (m n : Exec S A)
      → (b ≡ true → Returns P m)
      → (b ≡ false → Returns P n)
      → Returns P (if b then m else n)
  Returns-if true m n hm hn = hm refl
  Returns-if false m n hm hn = hn refl

module _ {ℓ κ κ' ι} {S : Type ℓ} {A : Type κ} {B : Type κ'} {P : B → Type ι} where
  Returns-continue :
      (r : Result A) (f : A → Exec S B)
      → ((a : A) → r ≡ ok a → Returns P (f a))
      → (s : S) (b : B) → (continue r f s).0 ≡ ok b
      → P b
  Returns-continue (ok a) f k s b h = (k a refl).at s b h
  Returns-continue (err e) f k s b h = absurd (cc)

  pub Returns-bind :
      (m : Exec S A) (f : A → Exec S B) → ((a : A) → Returns P (f a)) → Returns P (m >>= f)
  Returns-bind m f hf = record {
    at = λ s b h. Returns-continue (m s).0 f (λ a e. hf a) (m s).1 b h;
  }

  -- What the first step returns may be used in the second.
  pub Returns-bind_with {ι'} :
      {Q : A → Type ι'} (m : Exec S A) (f : A → Exec S B)
      → Returns Q m
      → ((a : A) → Q a → Returns P (f a))
      → Returns P (m >>= f)
  Returns-bind_with m f hm hf = record {
    at = λ s b h. Returns-continue (m s).0 f (λ a e. hf a (hm.at s a e)) (m s).1 b h;
  }

module _ {ℓ κ ι} {S : Type ℓ} {A : Type κ} {P : A → Type ι} where
  -- A loop returns as many values as it makes rounds, and `P` holds of each.
  pub Returns-each :
      (from n : ℕ) (m : ℕ → Exec S A)
      → ((i : ℕ) → Returns P (m i))
      → Returns (λ out. (length out ≡ n) × All P out) (each from n m)
  unfolding each
  Returns-each from zero m h = Returns-pure [] (refl, tt)
  Returns-each from (suc n) m h = Returns-bind_with (m from) _ (h from) λ a ha.
      Returns-bind_with (each (from + 1) n m) _ (Returns-each (from + 1) n m h)
        λ rest hrest. Returns-pure (a ∷ rest) (ap suc hrest.0, (ha, hrest.1))
