-- ===== src/Session/Schema/Drain/Visits.antt =====
-- What the loop over schema rows makes of a result that the broker delivers.
use gocubrid.Prelude.{ℕ, zero, suc, ◌≡◌, ap, sym, ◌∙◌, List, [], ◌∷◌, some, if◌then◌else◌}
use gocubrid.Errors.{is_end}
use gocubrid.Exec.{Result, ok, err, bind}
use gocubrid.Protocol.Codec.DateTime.{Zones}
use gocubrid.Session.Conn.{Conn}
use gocubrid.Session.Rows.{Rows, Row, Cursor, next}
use gocubrid.Session.Rows.Ahead.{rows_ahead}
use gocubrid.Session.Rows.Serve.{next-served}
use gocubrid.Session.Rows.Delivers.{Delivers, ended, served, fetched, next-fetched, EndsAt}
use gocubrid.Session.Stmt.{Stmt}
use gocubrid.Session.Stmt.Execute.{cursor_of}
use gocubrid.Session.Schema.Drain.{visit, turn, drain, for_each_schema_row}
use gocubrid.Session.Schema.Drain.Ends.{for_each_schema_row-Ended}

-- The callback on every row, in order, until its first error.
abbrev pub visit_all {ℓ} : {B : Type ℓ} → (Row → B → Result B) → List Row → B → Result B
visit_all fn [] b = ok b
visit_all fn (row ∷ rows) b = bind (fn row b) (visit_all fn rows)

some-injective {ℓ} : {A : Type ℓ} {a b : A} → some a ≡ some b → a ≡ b
some-injective h = cc

module _ {ℓ} {B : Type ℓ} (z : Zones) (k : Cursor) (fn : Row → B → Result B) where
  visit-visit_all :
      (fuel : ℕ) (r : Result B) (s : Conn × Rows) (rows : List Row) (out : Result B)
      → ((b : B) → (drain fuel z k fn b s).0 ≡ some out → out ≡ visit_all fn rows b)
      → (visit (λ b'. drain fuel z k fn b') r s).0 ≡ some out
      → out ≡ bind r (visit_all fn rows)
  visit-visit_all fuel (ok b) s rows out h e = h b e
  visit-visit_all fuel (err x) s rows out h e = cc

  drain-served :
      (fuel : ℕ) (b : B) (s s' : Conn × Rows) (row : Row) (rows : List Row) (out : Result B)
      → next z k s ≡ (ok row, s')
      → ((b' : B) → (drain fuel z k fn b' s').0 ≡ some out → out ≡ visit_all fn rows b')
      → (drain (suc fuel) z k fn b s).0 ≡ some out
      → out ≡ visit_all fn (row ∷ rows) b
  unfolding drain
  drain-served fuel b s s' row rows out n h e =
      visit-visit_all fuel (fn row b) s' rows out h
        (ap (λ t. (turn fn b (λ b'. drain fuel z k fn b') t).0) (sym n) ∙ e)

  drain-end :
      (fuel : ℕ) (b : B) (s : Conn × Rows) (out : Result B)
      → EndsAt z k s
      → (drain (suc fuel) z k fn b s).0 ≡ some out
      → out ≡ ok b
  unfolding drain
  drain-end fuel b s out n e =
      let stop : some (if is_end n.error then ok b else err n.error) ≡ some out =
        ap (λ t. (turn fn b (λ b'. drain fuel z k fn b') t).0) (sym n.gives) ∙ e in
      some-injective (sym stop ∙ ap (λ t. some (if t then ok b else err n.error)) n.counts)

  drain-same :
      (fuel : ℕ) (b : B) (s s' : Conn × Rows)
      → next z k s ≡ next z k s'
      → drain (suc fuel) z k fn b s ≡ drain (suc fuel) z k fn b s'
  unfolding drain
  drain-same fuel b s s' e = ap (turn fn b (λ b'. drain fuel z k fn b')) e

  pub drain-visit_all :
      {Last : Conn × Rows → Type 0} (last : (s : Conn × Rows) → Last s → EndsAt z k s) (fuel : ℕ)
      (b : B) (s end : Conn × Rows) (rows : List Row) (out : Result B)
      → Delivers z k Last s rows end
      → (drain fuel z k fn b s).0 ≡ some out
      → out ≡ visit_all fn rows b
  drain-visit_all last zero b s end rows out d e = absurd (unfold drain in cc)
  drain-visit_all last (suc fuel) b s end rows out (ended l) e = drain-end fuel b s out (last s l) e
  drain-visit_all last (suc fuel) b s end rows out (served front rest row a d) e =
      drain-served fuel b s _ row _ out (next-served z k s.0 s.1 front rest row a)
        (λ b' e'. drain-visit_all last fuel b' _ end _ out d e') e
  drain-visit_all last (suc fuel) b s end rows out (fetched rc fc t ts later es a more bl h d) e =
      drain-visit_all last (suc fuel) b _ end rows out d (
        ap (λ u. u.0)
          (sym (drain-same fuel b _ _ (next-fetched z k _ _ rc fc t ts later es a more bl h)))
        ∙ e)

-- When the broker delivers rows up to an end, the loop over them gives what its callback makes of
-- all of them, in order, or the first error of the callback.
pub for_each_schema_row-visit_all {ℓ} :
    {B : Type ℓ} (z : Zones) (fn : Row → B → Result B) (b : B) (c : Conn) (s : Stmt) (r : Rows)
    {Last : Conn × Rows → Type 0} (end : Conn × Rows) (rows : List Row)
    → ((t : Conn × Rows) → Last t → EndsAt z (cursor_of s) t)
    → Delivers z (cursor_of s) Last (c, r) rows end
    → (for_each_schema_row z fn b (r, (c, s))).0 ≡ some (visit_all fn rows b)
for_each_schema_row-visit_all z fn b c s r end rows last d =
    let ended = for_each_schema_row-Ended z fn b (r, (c, s)) in
    let out = ended.0.0 in
    ended.0.1
    ∙ ap some (
        drain-visit_all z (cursor_of s) fn last (suc (rows_ahead (c, r))) b (c, r) end rows out d
          (unfold for_each_schema_row in ended.0.1))
