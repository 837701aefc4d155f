-- ===== src/Exec/Costs.antt =====
-- Weights: a method that succeeds leaves a state that weighs at most `gain` more than before, less
-- what it `spend`s. One rule for each way to build a method.
use gocubrid.Prelude.{ℕ, ◌+◌, ◌≤◌, Bool, true, false, ◌≡◌, refl, if◌then◌else◌, arith}
use gocubrid.Errors.{Error}
use gocubrid.Exec.{
  Result, ok, err, Exec, pure, raise, lift, gets, wrap, wrap_error, ◌>>=◌, continue,
}

pub record Costs {ℓ κ} {S : Type ℓ} {A : Type κ} (weight : S → ℕ) (gain spend : ℕ) (m : Exec S A)
    : Type (ℓ ⊔ κ) where
  pub at : (s : S) (a : A) → (m s).0 ≡ ok a → weight (m s).1 + spend ≤ weight s + gain

wrapped-ok {ℓ} :
    {A : Type ℓ} (f : Error → Error) (r : Result A) {a : A} → wrap_error f r ≡ ok a → r ≡ ok a
wrapped-ok f (ok b) h = h
wrapped-ok f (err e) h = absurd (cc)

module _ {ℓ κ} {S : Type ℓ} {A : Type κ} {weight : S → ℕ} where
  pub Costs-pure : (a : A) → Costs weight 0 0 (pure a)
  Costs-pure a = record { at = λ s b h. omega arith }

  pub Costs-raise : (gain spend : ℕ) (e : Error) → Costs {A = A} weight gain spend (raise e)
  Costs-raise gain spend e = record { at = λ s b h. absurd (cc) }

  pub Costs-lift : (r : Result A) → Costs weight 0 0 (lift r)
  Costs-lift r = record { at = λ s b h. omega arith }

  pub Costs-gets : (f : S → A) → Costs weight 0 0 (gets f)
  Costs-gets f = record { at = λ s b h. omega arith }

  pub Costs-if :
      (gain spend : ℕ) (b : Bool) (m n : Exec S A)
      → Costs weight gain spend m
      → Costs weight gain spend n
      → Costs weight gain spend (if b then m else n)
  Costs-if gain spend true m n hm hn = hm
  Costs-if gain spend false m n hm hn = hn

  pub Costs-wrap :
      (gain spend : ℕ) (f : Error → Error) (m : Exec S A)
      → Costs weight gain spend m
      → Costs weight gain spend (wrap f m)
  Costs-wrap gain spend f m h = record { at = λ s a e. h.at s a (wrapped-ok f (m s).0 e) }

  pub Costs-weaken :
      (gain spend gain' spend' : ℕ) (m : Exec S A)
      → gain + spend' ≤ gain' + spend
      → Costs weight gain spend m
      → Costs weight gain' spend' m
  Costs-weaken gain spend gain' spend' m less h = record {
    at = λ s a e. let p = h.at s a e in omega arith;
  }

module _ {ℓ κ ι} {S : Type ℓ} {A : Type κ} {B : Type ι} {weight : S → ℕ} where
  Costs-continue :
      (gain spend : ℕ) (r : Result A) (f : A → Exec S B)
      → ((a : A) → Costs weight gain spend (f a))
      → (s : S) (b : B) → (continue r f s).0 ≡ ok b
      → (a : A) × (r ≡ ok a) × (weight (continue r f s).1 + spend ≤ weight s + gain)
  Costs-continue gain spend (ok a) f h s b e = (a, refl, (h a).at s b e)
  Costs-continue gain spend (err x) f h s b e = absurd (cc)

  pub Costs-bind :
      (gain spend gain' spend' : ℕ) (m : Exec S A) (f : A → Exec S B)
      → Costs weight gain spend m
      → ((a : A) → Costs weight gain' spend' (f a))
      → Costs weight (gain + gain') (spend + spend') (m >>= f)
  Costs-bind gain spend gain' spend' m f hm hf = record {
    at = λ s b e.
        let (a, got, second) = Costs-continue gain' spend' (m s).0 f hf (m s).1 b e in
        let first = hm.at s a got in omega arith;
  }

  -- The free methods are chained without numbers.
  pub Costs-then :
      (m : Exec S A) (f : A → Exec S B)
      → Costs weight 0 0 m
      → ((a : A) → Costs weight 0 0 (f a))
      → Costs weight 0 0 (m >>= f)
  Costs-then m f hm hf = Costs-bind 0 0 0 0 m f hm hf
