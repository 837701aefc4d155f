-- ===== src/Session/BatchExec/Binds.antt =====
-- The bind values of a batch on the wire: two arguments for each value, row after row, so that the
-- server can tell the number of rows from the number of arguments.
use gocubrid.Prelude.{
  ℕ, ◌+◌, ◌*◌, ◌≡◌, refl, ap, ◌∙◌, sym, List, [], ◌∷◌, ◌++◌, length, length-append, append_assoc,
  append-nil, All, ◌==◌, ==_iff, Bool-cases, inl, inr, arith,
}
use gocubrid.Errors.{Error, batch_bind}
use gocubrid.Exec.{wrap_error, ok, Exec, pure, wrap, continue, ◌>>◌}
use gocubrid.Bytes.{Bytes}
use gocubrid.Value.{Value}
use gocubrid.Wire.Writer.{Writer, arg_byte}
use gocubrid.Wire.Args.{pack, pack-append}
use gocubrid.Wire.Packs.{Packs-then, Packs-arg_byte}
use gocubrid.Protocol.Codec.Encode.{encode_param, encode_scalar_value}
use gocubrid.Protocol.Codec.RoundTrip.{
  IsBindable, code, payload, encode_param-scalar, Packs-encode_scalar_value,
}
use gocubrid.Session.Rows.{Row}
use gocubrid.Session.Stmt.Execute.{encode_arg}
use gocubrid.Session.BatchExec.{encode_row, encode_rows, check_rows}

abbrev pub value_args : Row → List Bytes
value_args [] = []
value_args (v ∷ vs) = (code v ∷ []) ∷ payload v ∷ value_args vs

abbrev pub batch_args : List Row → List Bytes
batch_args [] = []
batch_args (row ∷ rows) = value_args row ++ batch_args rows

length-value_args : (row : Row) → length (value_args row) ≡ 2 * length row
length-value_args [] = refl
length-value_args (v ∷ vs) = omega (arith, length-value_args vs)

-- What a method appends, when it succeeds.
record Appends (m : Exec Writer (Unit {0})) (ps : List Bytes) : Type 0 where
  run : (w : Writer) → m w ≡ (ok tt, record { buf = w.buf ++ pack ps })

Appends-encode_param :
    (v : Value) → IsBindable v → Appends (encode_param v) ((code v ∷ []) ∷ payload v ∷ [])
Appends-encode_param v h = record {
  run = λ w.
      let packs =
        Packs-then (arg_byte (code v)) (encode_scalar_value v) ((code v ∷ []) ∷ []) (payload v ∷ [])
          (Packs-arg_byte (code v)) (Packs-encode_scalar_value v h) in
      encode_param-scalar v w h ∙ ap (λ b. (ok tt, record { buf = b })) (packs.run w);
}

Appends-encode_arg :
    (v : Value) → IsBindable v → Appends (encode_arg v) ((code v ∷ []) ∷ payload v ∷ [])
unfolding encode_arg
Appends-encode_arg (Value.lob l) h = absurd h
Appends-encode_arg Value.nil_lob h = absurd h
Appends-encode_arg (Value.numeric s) h = absurd h
Appends-encode_arg v h = Appends-encode_param v h

Appends-then :
    (m n : Exec Writer (Unit {0})) (ps qs : List Bytes)
    → Appends m ps
    → Appends n qs
    → Appends (m >> n) (ps ++ qs)
Appends-then m n ps qs hm hn = record {
  run = λ w.
      ap (λ p. continue p.0 (λ _. n) p.1) (hm.run w)
      ∙ hn.run (record { buf = w.buf ++ pack ps })
      ∙ ap (λ b. (ok tt, record { buf = b }))
          (append_assoc w.buf (pack ps) (pack qs) ∙ ap (λ t. w.buf ++ t) (sym (pack-append ps qs)));
}

Appends-nothing : Appends (pure tt) []
unfolding pack
Appends-nothing = record {
  run = λ w. ap (λ b. (ok tt, record { buf = b })) (sym (append-nil w.buf));
}

Appends-wrap :
    (f : Error → Error) (m : Exec Writer (Unit {0})) (ps : List Bytes)
    → Appends m ps
    → Appends (wrap f m) ps
Appends-wrap f m ps h = record { run = λ w. ap (λ p. (wrap_error f p.0, p.1)) (h.run w) }

Appends-encode_row :
    (i j : ℕ) (row : Row) → All IsBindable row → Appends (encode_row i j row) (value_args row)
unfolding encode_row
Appends-encode_row i j [] h = Appends-nothing
Appends-encode_row i j (v ∷ vs) h =
    Appends-then (wrap (batch_bind (i + 1) (j + 1)) (encode_arg v)) (encode_row i (j + 1) vs)
      ((code v ∷ []) ∷ payload v ∷ []) (value_args vs)
      (Appends-wrap (batch_bind (i + 1) (j + 1)) (encode_arg v) _ (Appends-encode_arg v h.0))
      (Appends-encode_row i (j + 1) vs h.1)

Appends-encode_rows :
    (i : ℕ) (rows : List Row)
    → All (All IsBindable) rows
    → Appends (encode_rows i rows) (batch_args rows)
unfolding encode_rows
Appends-encode_rows i [] h = Appends-nothing
Appends-encode_rows i (row ∷ rows) h =
    Appends-then (encode_row i 0 row) (encode_rows (i + 1) rows) (value_args row) (batch_args rows)
      (Appends-encode_row i 0 row h.0) (Appends-encode_rows (i + 1) rows h.1)

length-batch_args :
    (params i : ℕ) (rows : List Row)
    → check_rows params i rows ≡ ok tt
    → length (batch_args rows) ≡ 2 * (params * length rows)
unfolding check_rows
length-batch_args params i [] h = omega arith
length-batch_args params i (row ∷ rows) h = elim (Bool-cases (length row == params)) [
  | inl e ↦
      let rest : check_rows params (i + 1) rows ≡ ok tt = simp (e) at h in
      let same : length row ≡ params = (==_iff (length row) params).0 e in
      omega (
        arith,
        same,
        length-append (value_args row) (batch_args rows),
        length-value_args row,
        length-batch_args params (i + 1) rows rest,
      )
  | inr e ↦ absurd (cc)
]

-- The rows of a batch that passes its width guard, and whose values are all bindable scalars (NULL; a
-- boolean; a number of its Go type; a string that does not end in NUL, and bytes, each below 2^32
-- bytes on the wire; a civil UTC time of whole milliseconds with a year of 16 bits), are appended
-- whole: behind what the request held stand two arguments for each value, row after row, as many as
-- twice the parameters times the rows.
pub encode_rows-batch_args :
    (params : ℕ) (rows : List Row) (w : Writer)
    → check_rows params 0 rows ≡ ok tt
    → All (All IsBindable) rows
    → (encode_rows 0 rows w ≡ (ok tt, record { buf = w.buf ++ pack (batch_args rows) }))
      × (length (batch_args rows) ≡ 2 * (params * length rows))
encode_rows-batch_args params rows w h b =
    ((Appends-encode_rows 0 rows b).run w, length-batch_args params 0 rows h)
