-- ===== src/Session/Rows/Served.antt =====
-- The rows that `Next` serves hold values of their columns, whatever a broker sends.
use gocubrid.Prelude.{
  ℕ, zero, suc, ◌≡◌, refl, sym, subst, ◌∙◌, Bool, true, false, List, [], ◌∷◌, All, Option, none,
  some, get_elem?, if◌then◌else◌,
}
use gocubrid.Exec.{Result, ok, err, continue}
use gocubrid.Wire.Reader.{Reader}
use gocubrid.Protocol.Codec.DateTime.{Zones}
use gocubrid.Session.Conn.{Conn, round_trip}
use gocubrid.Session.Column.{Column}
use gocubrid.Session.Rows.{
  Rows, Row, Cursor, fetch_request, fill, fetch_next, take_block, serve_row, serve, next,
}
use gocubrid.Session.Rows.Typed.{IsRow, Moves-take_block}

All-get_elem? {ℓ ι} :
    {A : Type ℓ} (P : A → Type ι) (xs : List A) (i : ℕ) (x : A)
    → All P xs
    → get_elem? xs i ≡ some x
    → P x
All-get_elem? P [] i x h e = absurd (cc)
All-get_elem? P (y ∷ ys) zero x h e = subst P (let k : y ≡ x = cc in k) h.0
All-get_elem? P (y ∷ ys) (suc i) x h e = All-get_elem? P ys i x h.1 e

module _ (z : Zones) (k : Cursor) (cols : List Column) where
  -- Rows of these columns.
  abbrev pub IsTyped : Rows → Type 0
  IsTyped r = (r.cols ≡ cols) × All (IsRow z k.is_call cols) r.tuples

  abbrev pub Serves : Result Row × (Conn × Rows) → Type 0
  Serves out = IsTyped out.1.1 × ((row : Row) → out.0 ≡ ok row → IsRow z k.is_call cols row)

  fill-IsTyped : (rd : Reader) (s : Conn × Rows) → IsTyped s.1 → IsTyped (fill z k rd s).1.1
  unfolding fill
  fill-IsTyped rd (c, r) h =
      let moved =
        (Moves-take_block z k.is_call cols c.version k.handle).step
          (record { reader = rd; rows = r }) in
      subst (λ t. IsTyped (take_block z c.version k t (record { reader = rd; rows = r })).1.rows)
        (sym h.0) (moved.0 ∙ h.0, moved.1 h.1)

  filled :
      (r : Result Reader) (s : Conn × Rows) → IsTyped s.1 → IsTyped (continue r (fill z k) s).1.1
  filled (ok rd) s h = fill-IsTyped rd s h
  filled (err e) s h = h

  pub fetch_next-IsTyped : (s : Conn × Rows) → IsTyped s.1 → IsTyped (fetch_next z k s).1.1
  unfolding fetch_next
  fetch_next-IsTyped s h =
      let sent = round_trip (fetch_request k s.1.next_index s.0) s.0 in
      filled sent.0 (sent.1, s.1) h

  serve_row-Serves :
      (o : Option Row) (s : Conn × Rows)
      → IsTyped s.1
      → ((row : Row) → o ≡ some row → IsRow z k.is_call cols row)
      → Serves (serve_row o s)
  unfolding serve_row
  serve_row-Serves (some row) s h g =
      (h, λ row' e. subst (IsRow z k.is_call cols) (let j : row ≡ row' = cc in j) (g row refl))
  serve_row-Serves none s h g = (h, λ row e. absurd (cc))

  serve-Serves : (s : Conn × Rows) → IsTyped s.1 → Serves (serve s)
  unfolding serve
  serve-Serves s h =
      serve_row-Serves (get_elem? s.1.tuples s.1.position) s h
        (λ row e. All-get_elem? (IsRow z k.is_call cols) s.1.tuples s.1.position row h.1 e)

  served :
      (r : Result (Unit {0})) (s : Conn × Rows) → IsTyped s.1 → Serves (continue r (λ u. serve) s)
  served (ok u) s h = serve-Serves s h
  served (err e) s h = (h, λ row k'. absurd (cc))

  by_test :
      (b : Bool) (x y : Result Row × (Conn × Rows))
      → Serves x
      → Serves y
      → Serves (if b then x else y)
  by_test true x y hx hy = hx
  by_test false x y hx hy = hy

  -- `Next` over rows whose values are of their columns gives such a row and leaves such rows.
  pub next-Serves : (s : Conn × Rows) → IsTyped s.1 → Serves (next z k s)
  unfolding next
  next-Serves s h =
      by_test s.1.closed _ _ (h, λ row e. absurd (cc))
        (by_test _ _ _ (serve-Serves s h)
          (served (fetch_next z k s).0 (fetch_next z k s).1 (fetch_next-IsTyped s h)))
