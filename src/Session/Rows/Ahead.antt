-- ===== src/Session/Rows/Ahead.antt =====
-- The rows to come are bounded: every call of `Next` that gives a row lowers a count that the bytes
-- still to arrive bound.
use gocubrid.Prelude.{
  ℕ, zero, suc, ◌+◌, ◌≤◌, ◌<◌, ◌≡◌, refl, ap, sym, ◌∙◌, ◌||◌, Bool, true, false, length, get_elem?,
  List, [], ◌∷◌, Option, none, some, ltb, if◌then◌else◌, arith,
}
use gocubrid.Errors.{rows_closed}
use gocubrid.Exec.{Result, ok, >>=-ok, unless-run_ok, ◌>>◌}
use gocubrid.Wire.Reader.{Reader, remaining}
use gocubrid.Protocol.Codec.DateTime.{Zones}
use gocubrid.Session.Conn.{Conn, round_trip}
use gocubrid.Session.Conn.Arrivals.{arrivals, arrivals-round_trip}
use gocubrid.Session.Rows.{
  Rows, Row, Cursor, next, serve, serve_row, fetch_next, fetch_request, fill, on_conn,
}
use gocubrid.Session.Rows.Spent.{unserved, Costs-take_block}

-- The rows in memory, and one for every byte still to come.
abbrev pub rows_ahead : Conn × Rows → ℕ
rows_ahead s = unserved s.1 + arrivals s.0

get_elem?-lt {ℓ} :
    {A : Type ℓ} (xs : List A) (i : ℕ) (x : A) → get_elem? xs i ≡ some x → i < length xs
get_elem?-lt [] i x h = absurd (cc)
get_elem?-lt (y ∷ ys) zero x h = omega arith
get_elem?-lt (y ∷ ys) (suc i) x h = omega (arith, get_elem?-lt ys i x h)

serve_row_ahead :
    (row : Option Row) (s : Conn × Rows) (r : Row)
    → get_elem? s.1.tuples s.1.position ≡ row
    → (serve_row row s).0 ≡ ok r
    → rows_ahead (serve_row row s).1 + 1 ≤ rows_ahead s
unfolding serve_row
serve_row_ahead none s r e h = absurd (cc)
serve_row_ahead (some row) s r e h = omega (arith, get_elem?-lt s.1.tuples s.1.position row e)

serve_ahead :
    (s : Conn × Rows) (r : Row) → (serve s).0 ≡ ok r → rows_ahead (serve s).1 + 1 ≤ rows_ahead s
unfolding serve
serve_ahead s r h = serve_row_ahead _ s r refl h

fill_ahead :
    (z : Zones) (k : Cursor) (rd : Reader) (s : Conn × Rows) (u : Unit {0})
    → (fill z k rd s).0 ≡ ok u
    → rows_ahead (fill z k rd s).1 ≤ rows_ahead s + remaining rd
unfolding fill
fill_ahead z k rd s u h =
    let cost =
      (Costs-take_block z s.0.version k s.1.cols).at (record { reader = rd; rows = s.1 }) u h in
    omega arith

fetch_next_ahead :
    (z : Zones) (k : Cursor) (s : Conn × Rows) (u : Unit {0})
    → (fetch_next z k s).0 ≡ ok u
    → rows_ahead (fetch_next z k s).1 ≤ rows_ahead s
unfolding fetch_next
fetch_next_ahead z k s u h =
    let payload = fetch_request k s.1.next_index s.0 in
    let (rd, got, run) = >>=-ok (on_conn (round_trip payload)) (fill z k) s u h in
    let trip = arrivals-round_trip payload s.0 rd got in
    let filled =
      fill_ahead z k rd ((round_trip payload s.0).1, s.1) u (ap (λ t. t.0) (sym run) ∙ h) in
    omega (arith, trip, filled, ap (λ t. rows_ahead t.1) run)

fetched_ahead :
    (z : Zones) (k : Cursor) (s : Conn × Rows) (row : Row)
    → ((do fetch_next z k; serve) s).0 ≡ ok row
    → rows_ahead ((do fetch_next z k; serve) s).1 + 1 ≤ rows_ahead s
fetched_ahead z k s row h =
    let (u, got, run) = >>=-ok (fetch_next z k) (λ u. serve) s row h in
    let first = fetch_next_ahead z k s u got in
    let second = serve_ahead (fetch_next z k s).1 row (ap (λ t. t.0) (sym run) ∙ h) in
    omega (arith, first, second, ap (λ t. rows_ahead t.1) run)

either_ahead :
    (b : Bool) (s : Conn × Rows) (x y : Result Row × (Conn × Rows)) (row : Row)
    → (x.0 ≡ ok row → rows_ahead x.1 + 1 ≤ rows_ahead s)
    → (y.0 ≡ ok row → rows_ahead y.1 + 1 ≤ rows_ahead s)
    → (if b then x else y).0 ≡ ok row
    → rows_ahead (if b then x else y).1 + 1 ≤ rows_ahead s
either_ahead true s x y row hx hy h = hx h
either_ahead false s x y row hx hy h = hy h

-- Whatever the broker sends, a row that `Next` gives is one fewer to come.
pub next_ahead :
    (z : Zones) (k : Cursor) (s : Conn × Rows) (row : Row)
    → (next z k s).0 ≡ ok row
    → rows_ahead (next z k s).1 + 1 ≤ rows_ahead s
unfolding next
next_ahead z k s row h =
    let fetched = (do fetch_next z k; serve) s in
    let there = ltb s.1.position (length s.1.tuples) || s.1.fetched_all in
    let open_ = if there then serve s else fetched in
    let same = unless-run_ok s.1.closed rows_closed s open_ row h in
    let bound =
      either_ahead there s (serve s) fetched row (serve_ahead s row) (fetched_ahead z k s row)
        (ap (λ t. t.0) (sym same) ∙ h) in
    omega (arith, bound, ap (λ t. rows_ahead t.1) same)
