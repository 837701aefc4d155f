-- ===== src/Exec/Moves.antt =====
-- Two-state properties: how the state after a method relates to the state before it, whatever the
-- method returns. One rule for each way to build a method.
use gocubrid.Prelude.{◌≡◌, refl, ℕ, zero, suc, ◌+◌, Bool, true, false, [], ◌∷◌, if◌then◌else◌}
use gocubrid.Errors.{Error}
use gocubrid.Exec.Returns.{Returns}
use gocubrid.Exec.{
  Result, ok, err, Exec, pure, raise, lift, gets, attempt, wrap, each, ◌>>=◌, continue,
}

pub record Moves {ℓ κ ι} {S : Type ℓ} {A : Type κ} (R : S → S → Type ι) (m : Exec S A)
    : Type (ℓ ⊔ κ ⊔ ι) where
  pub step : (s : S) → R s (m s).1

-- A relation that a method may be built over: nothing done is allowed, and so is one thing after
-- another.
pub record IsPreorder {ℓ ι} {S : Type ℓ} (R : S → S → Type ι) : Type (ℓ ⊔ ι) where
  pub stay : (s : S) → R s s
  pub chain : {a b c : S} → R a b → R b c → R a c

module _ {ℓ κ ι} {S : Type ℓ} {A : Type κ} {R : S → S → Type ι} (pre : IsPreorder R) where
  pub Moves-pure : (a : A) → Moves R (pure a)
  Moves-pure a = record { step = λ s. pre.stay s }

  pub Moves-raise : (e : Error) → Moves {A = A} R (raise e)
  Moves-raise e = record { step = λ s. pre.stay s }

  pub Moves-lift : (r : Result A) → Moves R (lift r)
  Moves-lift r = record { step = λ s. pre.stay s }

  pub Moves-gets : (f : S → A) → Moves R (gets f)
  Moves-gets f = record { step = λ s. pre.stay s }

module _ {ℓ κ ι} {S : Type ℓ} {A : Type κ} {R : S → S → Type ι} where
  pub Moves-if : (b : Bool) (m n : Exec S A) → Moves R m → Moves R n → Moves R (if b then m else n)
  Moves-if true m n hm hn = hm
  Moves-if false m n hm hn = hn

  pub Moves-wrap : (f : Error → Error) (m : Exec S A) → Moves R m → Moves R (wrap f m)
  Moves-wrap f m h = record { step = h.step }

  pub Moves-attempt : (m : Exec S A) → Moves R m → Moves R (attempt m)
  Moves-attempt m h = record { step = h.step }

module _ {ℓ κ κ' ι} {S : Type ℓ} {A : Type κ} {B : Type κ'} {R : S → S → Type ι}
    (pre : IsPreorder R) where
  Moves-continue_with :
      (r : Result A) (f : A → Exec S B)
      → ((a : A) → r ≡ ok a → Moves R (f a))
      → (s : S) → R s (continue r f s).1
  Moves-continue_with (ok a) f h s = (h a refl).step s
  Moves-continue_with (err e) f h s = pre.stay s

  -- What the first step returns may be used in the second.
  pub Moves-bind_with {ι'} :
      {Q : A → Type ι'} (m : Exec S A) (f : A → Exec S B)
      → Moves R m
      → Returns Q m
      → ((a : A) → Q a → Moves R (f a))
      → Moves R (m >>= f)
  Moves-bind_with m f hm q hf = record {
    step = λ s.
        pre.chain (hm.step s) (Moves-continue_with (m s).0 f (λ a e. hf a (q.at s a e)) (m s).1);
  }

  pub Moves-bind :
      (m : Exec S A) (f : A → Exec S B) → Moves R m → ((a : A) → Moves R (f a)) → Moves R (m >>= f)
  Moves-bind m f hm hf = record {
    step = λ s. pre.chain (hm.step s) (Moves-continue_with (m s).0 f (λ a e. hf a) (m s).1);
  }

module _ {ℓ κ ι} {S : Type ℓ} {A : Type κ} {R : S → S → Type ι} (pre : IsPreorder R) where
  pub Moves-each :
      (from n : ℕ) (m : ℕ → Exec S A) → ((i : ℕ) → Moves R (m i)) → Moves R (each from n m)
  unfolding each
  Moves-each from zero m h = Moves-pure pre []
  Moves-each from (suc n) m h = Moves-bind pre (m from) _ (h from) λ a.
      Moves-bind pre (each (from + 1) n m) _ (Moves-each (from + 1) n m h)
        λ rest. Moves-pure pre (a ∷ rest)
