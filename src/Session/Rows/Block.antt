-- ===== src/Session/Rows/Block.antt =====
-- A fetch block as a broker writes it, and that `consumeFetch` reads its tuples back.
use gocubrid.Prelude.{
  ℕ, ℤ, pos, ◌^◌, ◌<◌, ◌≡◌, ap, subst, le→leb, Bool-cases, inl, inr, sym, Bool, true, false, ◌||◌,
  List, [], ◌∷◌, ◌++◌, length, map, append_assoc, append-nil, leb, to_word, FitsWord, pos_part,
  ◌==◌, if◌then◌else◌, arith,
}
use gocubrid.Exec.{ok, Exec, pure, ◌>>=◌, ◌>>◌}
use gocubrid.Bytes.{Bytes, be_bytes}
use gocubrid.Wire.Reader.{at, int32, bytes, remaining}
use gocubrid.Wire.Reader.Reads.{Reads, Reads-byte, Reads-int32, Reads-count, Reads-bytes}
use gocubrid.Wire.Reader.Loops.{remaining-at}
use gocubrid.Protocol.Codes.{Version, at_least}
use gocubrid.Protocol.Codec.DateTime.{Zones}
use gocubrid.Session.Column.{Column}
use gocubrid.Session.Rows.{
  Rows, Row, Fetch, read_row, on_reader, set_rows, next32, consume_tuple, consume_tuples,
  consume_end, consume_fetch, is_zero,
}
use gocubrid.Session.Rows.Fills.{
  over, Fills, Fills-on_reader, Fills-set_rows, Fills-pure, Fills-bind, Fills-then, Fills-effect,
}
use gocubrid.Session.Rows.Cells.{Cell, cell_value, StandsRow, row_bytes, Reads-read_row}

pub record Tuple : Type 0 where
  pub index : ℤ
  pub oid : Bytes
  pub cells : List Cell

abbrev pub tuple_bytes : Tuple → Bytes
tuple_bytes t =
    be_bytes 4 (to_word (2 ^ 31) t.index) ++ ([] ++ (t.oid ++ (row_bytes t.cells ++ [])))

abbrev pub tuple_row : Tuple → Row
tuple_row t = map cell_value t.cells

abbrev pub tuples_bytes : List Tuple → Bytes
tuples_bytes [] = []
tuples_bytes (t ∷ ts) = tuple_bytes t ++ tuples_bytes ts

abbrev pub IsTuple : Zones → Bool → List Column → Tuple → Type 0
IsTuple z is_call cols t =
    FitsWord (2 ^ 31) t.index × (length t.oid ≡ 8) × StandsRow z is_call cols t.cells

abbrev pub AreTuples : Zones → Bool → List Column → List Tuple → Type 0
AreTuples z is_call cols [] = Unit
AreTuples z is_call cols (t ∷ ts) = IsTuple z is_call cols t × AreTuples z is_call cols ts

-- The cursor stands behind the last tuple.
abbrev pub index_after : List Tuple → ℤ → ℤ
index_after [] i = i
index_after (t ∷ ts) i = index_after ts (next32 t.index)

abbrev with_tuple : Tuple → Rows → Rows
with_tuple t r = record r { next_index = next32 t.index; tuples = r.tuples ++ tuple_row t ∷ [] }

abbrev pub with_tuples : List Tuple → Rows → Rows
with_tuples ts r = record r {
  next_index = index_after ts r.next_index;
  tuples = r.tuples ++ map tuple_row ts;
}

Reads-oid : (oid : Bytes) → length oid ≡ 8 → Reads (bytes (pos 8)) oid oid
Reads-oid oid h = subst (λ k. Reads (bytes (pos k)) oid oid) h (Reads-bytes oid)

Fills-consume_tuple :
    (z : Zones) (is_call : Bool) (cols : List Column) (t : Tuple)
    → IsTuple z is_call cols t
    → Fills (consume_tuple z is_call cols) (tuple_bytes t) tt (with_tuple t)
unfolding consume_tuple
Fills-consume_tuple z is_call cols t h =
    let add : Row → Exec Fetch (Unit {0}) =
      λ row. set_rows (λ r. record r { tuples = r.tuples ++ row ∷ [] }) in
    let last : Exec Fetch (Unit {0}) = on_reader (read_row z is_call cols) >>= add in
    let body : Exec Fetch (Unit {0}) = on_reader (bytes (pos 8)) >> last in
    let place : ℤ → Exec Fetch (Unit {0}) =
      λ idx. set_rows (λ r. record r { next_index = next32 idx }) in
    Fills-bind (on_reader int32) (λ idx. place idx >> body) _ _ t.index tt (λ r. r) _
      (Fills-on_reader _ _ _ (Reads-int32 t.index h.0))
      (Fills-then (place t.index) body [] _ tt tt (λ r. record r { next_index = next32 t.index }) _
        (Fills-set_rows _)
        (Fills-then (on_reader (bytes (pos 8))) last t.oid _ t.oid tt (λ r. r) _
          (Fills-on_reader _ _ _ (Reads-oid t.oid h.1))
          (Fills-bind (on_reader (read_row z is_call cols)) add (row_bytes t.cells) [] (tuple_row t)
            tt (λ r. r) _ (Fills-on_reader _ _ _ (Reads-read_row z is_call cols t.cells h.2))
            (Fills-set_rows (λ r. record r { tuples = r.tuples ++ tuple_row t ∷ [] })))))

Fills-consume_tuples :
    (z : Zones) (is_call : Bool) (cols : List Column) (ts : List Tuple)
    → AreTuples z is_call cols ts
    → Fills (consume_tuples z is_call cols (length ts)) (tuples_bytes ts) tt (with_tuples ts)
unfolding consume_tuples
Fills-consume_tuples z is_call cols [] h =
    Fills-effect (pure tt) [] tt (λ r. r) _
      (λ r. ap (λ u. record r { tuples = u }) (sym (append-nil r.tuples))) (Fills-pure tt)
Fills-consume_tuples z is_call cols (t ∷ ts) h =
    Fills-effect _ _ tt (λ r. with_tuples ts (with_tuple t r)) _
      (λ r.
        ap (λ u. record r { next_index = index_after ts (next32 t.index); tuples = u })
          (append_assoc r.tuples (tuple_row t ∷ []) (map tuple_row ts)))
      (Fills-bind (consume_tuple z is_call cols) _ _ _ tt tt (with_tuple t) (with_tuples ts)
        (Fills-consume_tuple z is_call cols t h.0) (Fills-consume_tuples z is_call cols ts h.1))

-- The fetch-completed byte, which a broker from V5 on writes behind the tuples.
abbrev pub end_bytes : Version → ℕ → Bytes
end_bytes ver fc = if at_least ver 5 then fc ∷ [] else []

abbrev pub with_end : Version → ℕ → ℕ → Rows → Rows
with_end ver fc n r = record r {
  fetched_all = if at_least ver 5 then fc == 1 else (n == 0) || r.fetched_all;
}

consume_end-flag :
    (ver : Version) (n : ℤ) (fc : ℕ) (front rest : Bytes) (r : Rows)
    → at_least ver 5 ≡ true
    → consume_end ver n (over front (fc ∷ rest) r)
      ≡ (ok tt, over (front ++ fc ∷ []) rest (record r { fetched_all = fc == 1 }))
unfolding consume_end
consume_end-flag ver n fc front rest r h =
    let some_left : leb 1 (remaining (at front (fc ∷ rest))) ≡ true =
      le→leb 1 _ (omega (arith, remaining-at front (fc ∷ rest))) in
    simp (h, some_left, (Reads-byte fc).run front rest)

consume_end-old :
    (ver : Version) (n : ℕ) (front rest : Bytes) (r : Rows)
    → at_least ver 5 ≡ false
    → consume_end ver (pos n) (over front rest r)
      ≡ (ok tt, over front rest (record r { fetched_all = (n == 0) || r.fetched_all }))
unfolding consume_end is_zero
consume_end-old ver n front rest r h =
    simp (h) (elim (Bool-cases (n == 0)) [ inl e ↦ simp (e) | inr e ↦ simp (e) ])

Fills-consume_end :
    (ver : Version) (fc n : ℕ)
    → Fills (consume_end ver (pos n)) (end_bytes ver fc) tt (with_end ver fc n)
Fills-consume_end ver fc n = record {
  run = λ front rest r. elim (Bool-cases (at_least ver 5)) [
    | inl e ↦ simp (e, consume_end-flag ver (pos n) fc front rest r e)
    | inr e ↦ simp (e, consume_end-old ver n front rest r e, append-nil front)
  ];
}

-- A block: the number of tuples, the tuples, and the end.
abbrev pub block_bytes : Version → ℕ → List Tuple → Bytes
block_bytes ver fc ts = be_bytes 4 (length ts) ++ (tuples_bytes ts ++ end_bytes ver fc)

-- A block that a broker writes, with fewer than 2^31 tuples, each with an eight-byte OID and cells
-- that stand for values by the types of their columns, is consumed to its last byte: its rows are
-- added in order, the cursor stands behind the last tuple, and the rows are complete if the
-- fetch-completed byte says so (V5 and later) or the block is empty (before).
pub consume_fetch-block_bytes :
    (z : Zones) (ver : Version) (is_call : Bool) (cols : List Column) (fc : ℕ) (ts : List Tuple)
    → AreTuples z is_call cols ts
    → length ts < 2 ^ 31
    → Fills
        (consume_fetch z ver is_call cols)
        (block_bytes ver fc ts)
        tt
        (λ r. with_end ver fc (length ts) (with_tuples ts r))
unfolding consume_fetch
consume_fetch-block_bytes z ver is_call cols fc ts h small =
    let rest : ℤ → Exec Fetch (Unit {0}) =
      λ n. consume_tuples z is_call cols (pos_part n) >> consume_end ver n in
    Fills-bind (on_reader int32) rest _ _ (pos (length ts)) tt (λ r. r) _
      (Fills-on_reader _ _ _ (Reads-count (length ts) small))
      (Fills-then (consume_tuples z is_call cols (length ts)) (consume_end ver (pos (length ts))) _
        _ tt tt (with_tuples ts) _ (Fills-consume_tuples z is_call cols ts h)
        (Fills-consume_end ver fc (length ts)))
