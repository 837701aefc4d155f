-- ===== src/Session/Failover.antt =====
-- The sweep of `Connect` in cubrid/conn.go over the hosts of a configuration. Dialing one host is a
-- parameter: it gives a connection or an error, in a world `S` that it changes.
use gocubrid.Prelude.{
  ℕ, ◌+◌, ◌≡◌, Bool, false, List, [], ◌∷◌, ◌++◌, length, length-append, if◌then◌else◌, arith,
}
use gocubrid.Errors.{Error}
use gocubrid.Exec.{Result, ok, err, Exec}

-- A connection, or the error of every host that was tried.
pub data Swept {ℓ} (C : Type ℓ) : Type ℓ where
  connected : C → Swept C
  unreachable : List Error → Swept C

module _ {ℓ κ ι} {Host : Type ℓ} {S : Type κ} {C : Type ι} (connect_host : Host → Exec S C)
    (is_dead : S → Bool) where
  -- The outcome of one host; the rest of the sweep is `more`.
  abbrev pub after : (List Error → S → Swept C × S) → List Error → Result C × S → Swept C × S
  after more errs (ok c, s) = (connected c, s)
  after more errs (err e, s) =
      if is_dead s then (unreachable (errs ++ e ∷ []), s) else more (errs ++ e ∷ []) s

  -- `for _, tg := range targets`, until a host answers or the caller's context is dead.
  unfoldable pub sweep : List Host → List Error → S → Swept C × S
  sweep [] errs s = (unreachable errs, s)
  sweep (t ∷ ts) errs s = after (λ es s'. sweep ts es s') errs (connect_host t s)

  -- Every host of the list was tried.
  abbrev pub Exhausts : ℕ → Swept C → Type 0
  Exhausts n (connected c) = Unit
  Exhausts n (unreachable errs) = length errs ≡ n

  after-Exhausts :
      (n : ℕ) (more : List Error → S → Swept C × S) (errs : List Error) (out : Result C × S)
      → ((s : S) → is_dead s ≡ false)
      → ((es : List Error) (s : S) → length es ≡ length errs + 1 → Exhausts n (more es s).0)
      → Exhausts n (after more errs out).0
  after-Exhausts n more errs (ok c, s) alive h = tt
  after-Exhausts n more errs (err e, s) alive h =
      rw (alive s) (h (errs ++ e ∷ []) s (omega (arith, length-append errs (e ∷ []))))

  sweep_from-Exhausts :
      (n : ℕ) (ts : List Host) (errs : List Error) (s : S)
      → ((s : S) → is_dead s ≡ false)
      → length errs + length ts ≡ n
      → Exhausts n (sweep ts errs s).0
  unfolding sweep
  sweep_from-Exhausts n [] errs s alive e = omega arith
  sweep_from-Exhausts n (t ∷ ts) errs s alive e =
      after-Exhausts n (λ es s'. sweep ts es s') errs (connect_host t s) alive
        λ es s' l. sweep_from-Exhausts n ts es s' alive (omega arith)

  -- As long as the caller's context lives, a sweep that fails has tried every host and reports one
  -- error for each.
  pub sweep-Exhausts :
      (ts : List Host) (s : S)
      → ((s : S) → is_dead s ≡ false)
      → Exhausts (length ts) (sweep ts [] s).0
  sweep-Exhausts ts s alive = sweep_from-Exhausts (length ts) ts [] s alive (omega arith)
