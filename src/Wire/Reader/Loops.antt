-- ===== src/Wire/Reader/Loops.antt =====
-- Readings behind a guard on their number, and in a loop.
use gocubrid.Prelude.{
  ℕ, suc, pos, ◌+◌, ◌*◌, ◌≤◌, ◌≡◌, ◌||◌, List, [], ◌∷◌, ◌++◌, length, length-append, append-nil,
  All, is_neg, ltb, le→ltb, if◌then◌else◌, arith, subst,
}
use gocubrid.Errors.{Error}
use gocubrid.Exec.{raise, gets, each, ◌>>=◌}
use gocubrid.Bytes.{Bytes}
use gocubrid.Wire.Reader.{Read, at, remaining}
use gocubrid.Wire.Reader.Reads.{Reads, Reads-bind, Reads-pure}

pub remaining-at : (front xs : Bytes) → remaining (at front xs) ≡ length xs
unfolding remaining
remaining-at front xs = omega (arith, length-append front xs)

module _ {ℓ} {A : Type ℓ} where
  -- A guard that compares the number of items, `size` bytes each at least, with the bytes left.
  pub Reads-guarded :
      (k size : ℕ) (e : ℕ → Error) (m : Read A) (bs : Bytes) (a : A)
      → k * size ≤ length bs
      → Reads m bs a
      → Reads
          (gets remaining >>= λ left.
            if is_neg (pos k) || ltb left (k * size) then raise (e left) else m)
          bs
          a
  Reads-guarded k size e m bs a enough h = record {
    run = λ front rest.
        rw
          (
            remaining-at front (bs ++ rest),
            le→ltb (length (bs ++ rest)) (k * size) (omega (arith, length-append bs rest)),
          )
          (h.run front rest);
  }

  abbrev pub all_bytes : List (Bytes × A) → Bytes
  all_bytes [] = []
  all_bytes ((bs, a) ∷ items) = bs ++ all_bytes items

  abbrev pub all_values : List (Bytes × A) → List A
  all_values [] = []
  all_values ((bs, a) ∷ items) = a ∷ all_values items

  -- A loop reads the items one after the other.
  pub Reads-each :
      (items : List (Bytes × A)) (from : ℕ) (m : ℕ → Read A)
      → All (λ item. (i : ℕ) → Reads (m i) item.0 item.1) items
      → Reads (each from (length items) m) (all_bytes items) (all_values items)
  unfolding each
  Reads-each [] from m h = Reads-pure []
  Reads-each ((bs, a) ∷ items) from m h =
      subst (λ t. Reads (each from (suc (length items)) m) (bs ++ t) (a ∷ all_values items))
        (append-nil (all_bytes items))
        (Reads-bind _ _ _ _ _ _ (h.0 from)
          (Reads-bind _ _ _ _ _ _ (Reads-each items (from + 1) m h.1) (Reads-pure _)))

  pub length-all_bytes :
      (size : ℕ) (items : List (Bytes × A))
      → All (λ item. size ≤ length item.0) items
      → length items * size ≤ length (all_bytes items)
  length-all_bytes size [] h = omega arith
  length-all_bytes size ((bs, a) ∷ items) h =
      omega (arith, length-append bs (all_bytes items), length-all_bytes size items h.1, h.0)
