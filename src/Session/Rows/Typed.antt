-- ===== src/Session/Rows/Typed.antt =====
-- Whatever a broker sends: every value that rows hold was decoded for its column, or is NULL.
use gocubrid.Prelude.{
  ℕ, zero, suc, ℤ, pos, ◌==◌, ◌&&◌, leb, ◌≡◌, refl, sym, subst, ◌∙◌, Bool, true, ◌⊎◌, inl, inr,
  List, [], ◌∷◌, ◌++◌, All, All-append, if◌then◌else◌, is_neg, pos_part,
}
use gocubrid.Errors.{Error}
use gocubrid.Exec.{◌>>=◌, gets, Result, ok, err, pure, wrap_error}
use gocubrid.Exec.Returns.{
  Returns, Returns-pure, Returns-bind, Returns-bind_with, Returns-if, Returns-lift,
}
use gocubrid.Exec.Moves.{Moves, IsPreorder, Moves-pure, Moves-bind, Moves-bind_with, Moves-if}
use gocubrid.Bytes.{Bytes}
use gocubrid.Value.{Value}
use gocubrid.Wire.Reader.{Read, int32, bytes, byte, remaining}
use gocubrid.Protocol.Codes.{Version, at_least}
use gocubrid.Protocol.Codec.DateTime.{Zones}
use gocubrid.Protocol.Status.{read_status}
use gocubrid.Session.Column.{Column, decode_type}
use gocubrid.Session.Rows.{
  Rows, Row, Fetch, decode_cell, read_cell, read_row, on_reader, set_rows, consume_tuple,
  consume_tuples, consume_end, consume_fetch, take_block, is_zero, next32,
}

wrap-ok {ℓ} :
    {A : Type ℓ} (r : Result A) (f : Error → Error) (a : A) → wrap_error f r ≡ ok a → r ≡ ok a
wrap-ok (ok x) f a h = h
wrap-ok (err e) f a h = absurd (cc)

module _ (z : Zones) (is_call : Bool) where
  -- A value of a column.
  abbrev pub IsCell : Column → Value → Type 0
  IsCell col v =
      (v ≡ Value.null) ⊎ ((b : Bytes) × (decode_cell z is_call (decode_type col) b ≡ ok v))

  abbrev pub IsRow : List Column → Row → Type 0
  IsRow [] [] = Unit
  IsRow [] (v ∷ vs) = ⊥
  IsRow (col ∷ cols) [] = ⊥
  IsRow (col ∷ cols) (v ∷ vs) = IsCell col v × IsRow cols vs

  Returns-read_cell : (col : Column) → Returns (IsCell col) (read_cell z is_call col)
  unfolding read_cell
  Returns-read_cell col = Returns-bind int32 _ λ sz.
      Returns-if (is_neg sz) _ _ (λ h. Returns-pure _ (inl refl))
        λ h. Returns-bind (bytes sz) _ λ b.
          Returns-lift (wrap_error _ (decode_cell z is_call (decode_type col) b))
            (λ v e. inr (b, wrap-ok _ _ v e))

  pub Returns-read_row : (cols : List Column) → Returns (IsRow cols) (read_row z is_call cols)
  unfolding read_row
  Returns-read_row [] = Returns-pure [] tt
  Returns-read_row (col ∷ cols) =
      Returns-bind_with (read_cell z is_call col) _ (Returns-read_cell col) λ v hv.
        Returns-bind_with (read_row z is_call cols) _ (Returns-read_row cols)
          λ vs hvs. Returns-pure (v ∷ vs) (hv, hvs)

  -- Rows whose tuples are rows of the columns `cols` stay so, and keep their columns.
  module _ (cols : List Column) where
    abbrev pub Keeps : Rows → Rows → Type 0
    Keeps r r' = (r'.cols ≡ r.cols) × (All (IsRow cols) r.tuples → All (IsRow cols) r'.tuples)

    abbrev pub KeepsFetch : Fetch → Fetch → Type 0
    KeepsFetch f f' = Keeps f.rows f'.rows

    pub keeps : IsPreorder KeepsFetch
    keeps = record { stay = λ f. (refl, λ h. h); chain = λ f g. (g.0 ∙ f.0, λ h. g.1 (f.1 h)) }

    pub Moves-on_reader {ℓ} : {A : Type ℓ} (m : Read A) → Moves KeepsFetch (on_reader m)
    Moves-on_reader m = record { step = λ f. (refl, λ h. h) }

    Moves-set_rows :
        (g : Rows → Rows) → ((r : Rows) → Keeps r (g r)) → Moves KeepsFetch (set_rows g)
    Moves-set_rows g h = record { step = λ f. h f.rows }

    Returns-on_reader {ℓ ι} :
        {A : Type ℓ} {P : A → Type ι} (m : Read A) → Returns P m → Returns P (on_reader m)
    Returns-on_reader m h = record { at = λ f a e. h.at f.reader a e }

    Moves-flags :
        (g : Rows → Rows)
        → ((r : Rows) → ((g r).cols ≡ r.cols) × ((g r).tuples ≡ r.tuples))
        → Moves KeepsFetch (set_rows g)
    Moves-flags g h =
        Moves-set_rows g (λ r. ((h r).0, λ k. subst (All (IsRow cols)) (sym (h r).1) k))

    Moves-append :
        (row : Row)
        → IsRow cols row
        → Moves KeepsFetch (set_rows (λ r. record r { tuples = r.tuples ++ row ∷ [] }))
    Moves-append row h =
        Moves-set_rows (λ r. record r { tuples = r.tuples ++ row ∷ [] })
          (λ r. (refl, λ k. All-append (IsRow cols) r.tuples (row ∷ []) k (h, tt)))

    Moves-consume_tuple : Moves KeepsFetch (consume_tuple z is_call cols)
    unfolding consume_tuple
    Moves-consume_tuple = Moves-bind keeps (on_reader int32) _ (Moves-on_reader int32) λ idx.
        Moves-bind keeps (set_rows (λ r. record r { next_index = next32 idx })) _
          (Moves-flags (λ r. record r { next_index = next32 idx }) (λ r. (refl, refl)))
          λ u.
            Moves-bind keeps (on_reader (bytes (pos 8))) _ (Moves-on_reader (bytes (pos 8))) λ oid.
              Moves-bind_with keeps (on_reader (read_row z is_call cols))
                (λ row. set_rows (λ r. record r { tuples = r.tuples ++ row ∷ [] }))
                (Moves-on_reader (read_row z is_call cols))
                (Returns-on_reader (read_row z is_call cols) (Returns-read_row cols)) Moves-append

    Moves-consume_tuples : (n : ℕ) → Moves KeepsFetch (consume_tuples z is_call cols n)
    unfolding consume_tuples
    Moves-consume_tuples zero = Moves-pure keeps tt
    Moves-consume_tuples (suc n) =
        Moves-bind keeps (consume_tuple z is_call cols) _ Moves-consume_tuple
          λ u. Moves-consume_tuples n

    pub Moves-fetched : (b : Bool) → Moves KeepsFetch (set_rows (λ r. record r { fetched_all = b }))
    Moves-fetched b = Moves-flags (λ r. record r { fetched_all = b }) (λ r. (refl, refl))

    Moves-consume_end : (ver : Version) (n : ℤ) → Moves KeepsFetch (consume_end ver n)
    unfolding consume_end
    Moves-consume_end ver n =
        Moves-bind keeps (on_reader (gets remaining)) _ (Moves-on_reader (gets remaining)) λ left.
          Moves-if (at_least ver 5 && leb 1 left)
            (on_reader byte >>= λ fc. set_rows (λ r. record r { fetched_all = fc == 1 }))
            (if is_zero n then set_rows (λ r. record r { fetched_all = true }) else pure tt)
            (Moves-bind keeps (on_reader byte) _ (Moves-on_reader byte)
              λ fc. Moves-fetched (fc == 1))
            (Moves-if (is_zero n) (set_rows (λ r. record r { fetched_all = true })) (pure tt)
              (Moves-fetched true) (Moves-pure keeps tt))

    pub Moves-consume_fetch : (ver : Version) → Moves KeepsFetch (consume_fetch z ver is_call cols)
    unfolding consume_fetch
    Moves-consume_fetch ver = Moves-bind keeps (on_reader int32) _ (Moves-on_reader int32) λ n.
        Moves-bind keeps (consume_tuples z is_call cols (pos_part n)) _
          (Moves-consume_tuples (pos_part n)) λ u. Moves-consume_end ver n

    pub Moves-take_block :
        (ver : Version) (handle : ℤ)
        → Moves KeepsFetch (take_block z ver (record { handle = handle; is_call = is_call }) cols)
    unfolding take_block
    Moves-take_block ver handle =
        Moves-bind keeps (on_reader read_status) _ (Moves-on_reader _) λ st.
          Moves-bind keeps (set_rows (λ r. record r { tuples = []; position = 0 })) _
            (Moves-set_rows (λ r. record r { tuples = []; position = 0 }) (λ r. (refl, λ h. tt)))
            λ u. Moves-consume_fetch ver
