-- ===== src/Session/Rows/Fills.antt =====
-- What a method makes of a block that begins with given bytes: it takes just those, returns a value
-- and changes the rows.
use gocubrid.Prelude.{◌≡◌, ap, ◌∙◌, sym, [], ◌++◌, append_assoc, append-nil}
use gocubrid.Exec.{ok, Exec, pure, continue, ◌>>=◌, ◌>>◌}
use gocubrid.Bytes.{Bytes}
use gocubrid.Wire.Reader.{Read, at}
use gocubrid.Wire.Reader.Reads.{Reads}
use gocubrid.Session.Rows.{Rows, Fetch, on_reader, set_rows}

abbrev pub over : Bytes → Bytes → Rows → Fetch
over front rest r = record { reader = at front rest; rows = r }

pub record Fills {ℓ} {A : Type ℓ} (m : Exec Fetch A) (bs : Bytes) (a : A) (g : Rows → Rows)
    : Type ℓ where
  pub run :
      (front rest : Bytes) (r : Rows)
      → m (over front (bs ++ rest) r) ≡ (ok a, over (front ++ bs) rest (g r))

pub Fills-on_reader {ℓ} :
    {A : Type ℓ} (m : Read A) (bs : Bytes) (a : A)
    → Reads m bs a
    → Fills (on_reader m) bs a (λ r. r)
Fills-on_reader m bs a h = record {
  run = λ front rest r. ap (λ p. (p.0, record { reader = p.1; rows = r })) (h.run front rest);
}

pub Fills-set_rows : (g : Rows → Rows) → Fills (set_rows g) [] tt g
Fills-set_rows g = record {
  run = λ front rest r. ap (λ t. (ok tt, over t rest (g r))) (sym (append-nil front));
}

pub Fills-pure {ℓ} : {A : Type ℓ} (a : A) → Fills (pure a) [] a (λ r. r)
Fills-pure a = record {
  run = λ front rest r. ap (λ t. (ok a, over t rest r)) (sym (append-nil front));
}

module _ {ℓ κ} {A : Type ℓ} {B : Type κ} where
  pub Fills-bind :
      (m : Exec Fetch A) (f : A → Exec Fetch B) (bs cs : Bytes) (a : A) (b : B) (g h : Rows → Rows)
      → Fills m bs a g
      → Fills (f a) cs b h
      → Fills (m >>= f) (bs ++ cs) b (λ r. h (g r))
  Fills-bind m f bs cs a b g h hm hf = record {
    run = λ front rest r.
        ap (λ t. (m >>= f) (over front t r)) (append_assoc bs cs rest)
        ∙ ap (λ p. continue p.0 f p.1) (hm.run front (cs ++ rest) r)
        ∙ hf.run (front ++ bs) rest (g r)
        ∙ ap (λ t. (ok b, over t rest (h (g r)))) (append_assoc front bs cs);
  }

  pub Fills-then :
      (m : Exec Fetch A) (n : Exec Fetch B) (bs cs : Bytes) (a : A) (b : B) (g h : Rows → Rows)
      → Fills m bs a g
      → Fills n cs b h
      → Fills (m >> n) (bs ++ cs) b (λ r. h (g r))
  Fills-then m n bs cs a b g h hm hn = Fills-bind m (λ _. n) bs cs a b g h hm hn

pub Fills-effect {ℓ} :
    {A : Type ℓ} (m : Exec Fetch A) (bs : Bytes) (a : A) (g h : Rows → Rows)
    → ((r : Rows) → g r ≡ h r)
    → Fills m bs a g
    → Fills m bs a h
Fills-effect m bs a g h e f = record {
  run = λ front rest r. f.run front rest r ∙ ap (λ t. (ok a, over (front ++ bs) rest t)) (e r);
}
