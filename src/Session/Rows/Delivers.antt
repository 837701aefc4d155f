-- ===== src/Session/Rows/Delivers.antt =====
-- A broker that delivers a result: each FETCH is answered with the next block.
use gocubrid.Prelude.{
  ℕ, ◌^◌, ◌<◌, ◌+◌, ◌≡◌, ap, ◌∙◌, sym, refl, true, false, ◌||◌, List, [], ◌∷◌, ◌++◌, length, map,
  append-nil, ltb, le→ltb, lt→ltb, arith,
}
use gocubrid.Errors.{Error, eof, read_failed, is_end}
use gocubrid.Exec.{ok, err, continue, ◌>>◌}
use gocubrid.Bytes.{Bytes, be_bytes}
use gocubrid.Wire.Reader.{new_reader}
use gocubrid.Protocol.Codes.{Version}
use gocubrid.Protocol.Codec.DateTime.{Zones}
use gocubrid.Protocol.Status.{read_status}
use gocubrid.Protocol.Status.Forms.{Reads-read_status}
use gocubrid.Session.Column.{Column}
use gocubrid.Session.Conn.{Conn, Exchange}
use gocubrid.Session.Conn.Trip.{Answers, answered, round_trip-answered}
use gocubrid.Session.Rows.{
  Rows, Row, Cursor, next, fetch_next, fetch_request, fill, take_block, consume_fetch, on_reader,
  set_rows,
}
use gocubrid.Session.Rows.Fills.{Fills, over, Fills-on_reader, Fills-set_rows, Fills-then}
use gocubrid.Session.Rows.Block.{
  Tuple, tuple_row, AreTuples, block_bytes, with_tuples, with_end, consume_fetch-block_bytes,
}
use gocubrid.Session.Rows.Serve.{IsAt, next-end}
use gocubrid.Session.Rows.Lost.{IsLost, NeedsBlock, next-lost}

-- The response to a FETCH: a status, and a block.
abbrev pub fetch_bytes : Version → ℕ → ℕ → List Tuple → Bytes
fetch_bytes ver rc fc ts = be_bytes 4 rc ++ ([] ++ block_bytes ver fc ts)

abbrev pub cleared : Rows → Rows
cleared r = record r { tuples = []; position = 0 }

-- The rows after it: the new block in place of the old one.
abbrev pub after_block : Version → ℕ → List Tuple → Rows → Rows
after_block ver fc ts r = with_end ver fc (length ts) (with_tuples ts (cleared r))

Fills-take_block :
    (z : Zones) (ver : Version) (k : Cursor) (cols : List Column) (rc fc : ℕ) (ts : List Tuple)
    → rc < 2 ^ 31
    → AreTuples z k.is_call cols ts
    → length ts < 2 ^ 31
    → Fills (take_block z ver k cols) (fetch_bytes ver rc fc ts) tt (after_block ver fc ts)
unfolding take_block
Fills-take_block z ver k cols rc fc ts hr h small =
    Fills-then (on_reader read_status) (set_rows cleared >> consume_fetch z ver k.is_call cols) _ _
      _ tt (λ r. r) _ (Fills-on_reader _ _ _ (Reads-read_status rc hr))
      (Fills-then (set_rows cleared) (consume_fetch z ver k.is_call cols) [] _ tt tt cleared _
        (Fills-set_rows cleared) (consume_fetch-block_bytes z ver k.is_call cols fc ts h small))

-- The block that answers a FETCH: its tuples match the columns, and there are some.
pub record IsBlock (z : Zones) (k : Cursor) (cols : List Column) (rc : ℕ) (t : Tuple)
    (ts : List Tuple) : Type 0 where
  pub status : rc < 2 ^ 31
  pub match_columns : AreTuples z k.is_call cols (t ∷ ts)
  pub few : length (t ∷ ts) < 2 ^ 31

-- All rows are served.
abbrev pub IsFinished : Conn × Rows → Type 0
IsFinished s = (front : List Row) × IsAt s.1 front [] × (s.1.fetched_all ≡ true)

-- Rows are missing, and the broker closes the socket.
abbrev pub IsCut : Conn × Rows → Type 0
IsCut s = (e : Exchange) × (es : List Exchange) × NeedsBlock s.1 × IsLost s.0 e es

-- `rows` are delivered from a state, up to a last one: what is in memory is served in order; when
-- it is used up and the end is not reached, a FETCH is answered with a block that is not empty.
pub data Delivers (z : Zones) (k : Cursor) (Last : Conn × Rows → Type 0)
    : Conn × Rows → List Row → Conn × Rows → Type 0 where
  ended : {s : Conn × Rows} → Last s → Delivers z k Last s [] s
  served :
      {c : Conn} {r : Rows} {end : Conn × Rows} (front rest : List Row) (row : Row)
      {rows : List Row}
      → IsAt r front (row ∷ rest)
      → Delivers z k Last (c, record r { position = r.position + 1 }) rows end
      → Delivers z k Last (c, r) (row ∷ rows) end
  fetched :
      {c : Conn} {r : Rows} {end : Conn × Rows} {rows : List Row} (rc fc : ℕ) (t : Tuple)
      (ts : List Tuple) (later : Bytes) (es : List Exchange)
      → IsAt r r.tuples []
      → r.fetched_all ≡ false
      → IsBlock z k r.cols rc t ts
      → Answers c (fetch_bytes c.version rc fc (t ∷ ts)) later es
      → Delivers z k Last
          (
            answered (fetch_request k r.next_index c) later es c,
            after_block c.version fc (t ∷ ts) r,
          )
          rows
          end
      → Delivers z k Last (c, r) rows end

fill-block :
    (z : Zones) (k : Cursor) (c : Conn) (r : Rows) (rc fc : ℕ) (t : Tuple) (ts : List Tuple)
    → IsBlock z k r.cols rc t ts
    → fill z k (new_reader (fetch_bytes c.version rc fc (t ∷ ts))) (c, r)
      ≡ (ok tt, (c, after_block c.version fc (t ∷ ts) r))
unfolding fill
fill-block z k c r rc fc t ts b =
    let bs = fetch_bytes c.version rc fc (t ∷ ts) in
    let filled =
      Fills-take_block z c.version k r.cols rc fc (t ∷ ts) b.status b.match_columns b.few in
    let same = ap (λ u. take_block z c.version k r.cols (over [] u r)) (sym (append-nil bs)) in
    ap (λ out. (out.0, (c, out.1.rows))) (same ∙ filled.run [] [] r)

fetch_next-block :
    (z : Zones) (k : Cursor) (c : Conn) (r : Rows) (rc fc : ℕ) (t : Tuple) (ts : List Tuple)
    (later : Bytes) (es : List Exchange)
    → IsBlock z k r.cols rc t ts
    → Answers c (fetch_bytes c.version rc fc (t ∷ ts)) later es
    → fetch_next z k (c, r) ≡ (
      ok tt,
      (answered (fetch_request k r.next_index c) later es c, after_block c.version fc (t ∷ ts) r),
    )
unfolding fetch_next
fetch_next-block z k c r rc fc t ts later es b h =
    let payload = fetch_request k r.next_index c in
    ap (λ u. continue u.0 (fill z k) (u.1, r))
      (round_trip-answered payload _ h.cas_info later c h.exchange_now es h.usable h.scripted
        h.written h.arrived h.four h.small)
    ∙ fill-block z k (answered payload later es c) r rc fc t ts b

-- When the block in memory is used up, `Next` gives what it gives over the block that is fetched.
pub next-fetched :
    (z : Zones) (k : Cursor) (c : Conn) (r : Rows) (rc fc : ℕ) (t : Tuple) (ts : List Tuple)
    (later : Bytes) (es : List Exchange)
    → IsAt r r.tuples []
    → r.fetched_all ≡ false
    → IsBlock z k r.cols rc t ts
    → Answers c (fetch_bytes c.version rc fc (t ∷ ts)) later es
    → next z k (c, r)
      ≡ next z k (
        answered (fetch_request k r.next_index c) later es c,
        after_block c.version fc (t ∷ ts) r,
      )
unfolding next
next-fetched z k c r rc fc t ts later es a more b h =
    let used : ltb r.position (length r.tuples) || r.fetched_all ≡ false =
      simp (le→ltb r.position (length r.tuples) (omega (arith, a.2)), more) in
    let some_rows : ltb 0 (length (map tuple_row (t ∷ ts))) ≡ true =
      lt→ltb 0 (length (map tuple_row (t ∷ ts))) (omega arith) in
    simp (a.0, used, fetch_next-block z k c r rc fc t ts later es b h, some_rows)

-- What `Next` gives at the last state: an error that counts as the end.
pub record EndsAt (z : Zones) (k : Cursor) (s : Conn × Rows) : Type 0 where
  pub error : Error
  pub after : Conn × Rows
  pub gives : next z k s ≡ (err error, after)
  pub counts : is_end error ≡ true

pub IsFinished-EndsAt : (z : Zones) (k : Cursor) (s : Conn × Rows) → IsFinished s → EndsAt z k s
IsFinished-EndsAt z k s (front, a, done) = record {
  error = eof;
  after = s;
  gives = next-end z k s.0 s.1 front a done;
  counts = unfold is_end in refl;
}

pub IsCut-EndsAt : (z : Zones) (k : Cursor) (s : Conn × Rows) → IsCut s → EndsAt z k s
IsCut-EndsAt z k s (e, es, n, l) =
    let gone = next-lost z k s.0 s.1 e es n l in
    record { error = read_failed eof; after = _; gives = gone; counts = unfold is_end in refl }
