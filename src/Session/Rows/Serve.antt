-- ===== src/Session/Rows/Serve.antt =====
-- Iterating over rows that are there: `Next` gives them in order, each once, and then the end.
use gocubrid.Prelude.{
  ℕ, suc, ◌+◌, ◌≡◌, refl, ap, ◌∙◌, sym, true, false, ◌||◌, List, [], ◌∷◌, ◌++◌, length,
  length-append, append_assoc, append-nil, get_elem?, none, some, ltb, lt→ltb, arith,
}
use gocubrid.Errors.{eof}
use gocubrid.Exec.{ok, err, each}
use gocubrid.Protocol.Codec.DateTime.{Zones}
use gocubrid.Session.Conn.{Conn}
use gocubrid.Session.Rows.{Rows, Row, Cursor, next, serve, serve_row}

-- Rows whose block is read up to `front`, with `rest` to come.
abbrev pub IsAt : Rows → List Row → List Row → Type 0
IsAt r front rest = (r.closed ≡ false) × (r.tuples ≡ front ++ rest) × (r.position ≡ length front)

get_elem?-after {ℓ} :
    {A : Type ℓ} (xs ys : List A) (y : A) → get_elem? (xs ++ y ∷ ys) (length xs) ≡ some y
get_elem?-after [] ys y = refl
get_elem?-after (x ∷ xs) ys y = get_elem?-after xs ys y

get_elem?-end {ℓ} : {A : Type ℓ} (xs : List A) → get_elem? (xs ++ []) (length xs) ≡ none
get_elem?-end [] = refl
get_elem?-end (x ∷ xs) = get_elem?-end xs

abbrev advanced : ℕ → Rows → Rows
advanced n r = record r { position = n + r.position }

pub next-served :
    (z : Zones) (k : Cursor) (c : Conn) (r : Rows) (front rest : List Row) (row : Row)
    → IsAt r front (row ∷ rest)
    → next z k (c, r) ≡ (ok row, (c, record r { position = r.position + 1 }))
unfolding next serve serve_row
next-served z k c r front rest row h =
    let here : get_elem? r.tuples r.position ≡ some row =
      rw (h.1, h.2) (get_elem?-after front rest row) in
    let less : ltb r.position (length r.tuples) ≡ true =
      lt→ltb _ _ (omega (arith, h.2, ap length h.1, length-append front (row ∷ rest))) in
    simp (h.0, less, here)

pub next-end :
    (z : Zones) (k : Cursor) (c : Conn) (r : Rows) (front : List Row)
    → IsAt r front []
    → r.fetched_all ≡ true
    → next z k (c, r) ≡ (err eof, (c, r))
unfolding next serve serve_row
next-end z k c r front h done =
    let here : get_elem? r.tuples r.position ≡ none = rw (h.1, h.2) (get_elem?-end front) in
    let less : ltb r.position (length r.tuples) || r.fetched_all ≡ true = ground arith in
    simp (h.0, less, here)

next-step :
    (r : Rows) (front rest : List Row) (row : Row)
    → IsAt r front (row ∷ rest)
    → IsAt (record r { position = r.position + 1 }) (front ++ row ∷ []) rest
next-step r front rest row h = (
  h.0,
  h.1 ∙ sym (append_assoc front (row ∷ []) rest),
  omega (arith, h.2, length-append front (row ∷ [])),
)

each-next_rows :
    (from : ℕ) (z : Zones) (k : Cursor) (c : Conn) (r : Rows) (front rest : List Row)
    → IsAt r front rest
    → each from (length rest) (λ i. next z k) (c, r)
      ≡ (ok rest, (c, record r { position = length rest + r.position }))
unfolding each
each-next_rows from z k c r front [] h =
    let same : 0 + r.position ≡ r.position = omega arith in
    ap (λ p. (ok [], (c, record r { position = p }))) (sym same)
each-next_rows from z k c r front (row ∷ rest) h =
    let r' = record r { position = r.position + 1 } in
    let more =
      each-next_rows (from + 1) z k c r' (front ++ row ∷ []) rest (next-step r front rest row h) in
    let place : length rest + (r.position + 1) ≡ suc (length rest) + r.position = omega arith in
    simp (next-served z k c r front rest row h, more, place)

end-IsAt :
    (r : Rows) (front rest : List Row)
    → IsAt r front rest
    → IsAt (record r { position = length rest + r.position }) (front ++ rest) []
end-IsAt r front rest h =
    (h.0, h.1 ∙ sym (append-nil (front ++ rest)), omega (arith, h.2, length-append front rest))

-- On open rows with no block to come, calling `Next` as often as there are rows ahead gives exactly
-- those rows, in order, and every further call gives the end. The connection is not touched.
pub each-next :
    (from : ℕ) (z : Zones) (k : Cursor) (c : Conn) (r : Rows) (front rest : List Row)
    → IsAt r front rest
    → r.fetched_all ≡ true
    → let end = record r { position = length rest + r.position } in
      (each from (length rest) (λ i. next z k) (c, r) ≡ (ok rest, (c, end)))
      × (next z k (c, end) ≡ (err eof, (c, end)))
each-next from z k c r front rest h done = (
  each-next_rows from z k c r front rest h,
  next-end z k c (record r { position = length rest + r.position }) (front ++ rest)
      (end-IsAt r front rest h) done,
)
