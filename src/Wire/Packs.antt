-- ===== src/Wire/Packs.antt =====
-- Every `Arg…` method of `Writer` appends one argument, its length in front.
use gocubrid.Prelude.{
  ℕ, ℤ, ◌+◌, ◌^◌, ◌≡◌, ap, ◌∙◌, sym, List, [], ◌∷◌, ◌++◌, length, length-append, append_assoc,
  append-nil, arith, to_word,
}
use native.Mathlib.Nat.{mod-eq_of_lt}
use gocubrid.Bytes.{Bytes, be_bytes, length-be_bytes}
use gocubrid.Wire.Writer.{
  Writer, new_writer, raw_byte, arg_int, arg_byte, arg_short, arg_long, arg_float, arg_double,
  arg_string, arg_bytes, arg_null,
}
use gocubrid.Wire.Args.{arg, pack, pack-append, FitsArg}

-- `f` appends the arguments `ps` to whatever the writer holds.
pub record Packs (f : Writer → Writer) (ps : List Bytes) : Type 0 where
  pub run : (w : Writer) → (f w).buf ≡ w.buf ++ pack ps

pub Packs-then :
    (f g : Writer → Writer) (ps qs : List Bytes)
    → Packs f ps
    → Packs g qs
    → Packs (λ w. g (f w)) (ps ++ qs)
Packs-then f g ps qs hf hg = record {
  run = λ w.
      hg.run (f w)
      ∙ ap (λ t. t ++ pack qs) (hf.run w)
      ∙ append_assoc w.buf (pack ps) (pack qs)
      ∙ ap (λ t. w.buf ++ t) (sym (pack-append ps qs));
}

-- One argument: `head ++ p` with the length of `p` in `head`.
Packs-one :
    (f : Writer → Writer) (p : Bytes)
    → ((w : Writer) → (f w).buf ≡ w.buf ++ arg p)
    → Packs f (p ∷ [])
unfolding pack
Packs-one f p h = record { run = λ w. h w ∙ ap (λ t. w.buf ++ t) (sym (append-nil (arg p))) }

pub Packs-arg_byte : (b : ℕ) → Packs (arg_byte b) ((b ∷ []) ∷ [])
unfolding arg_byte arg
Packs-arg_byte b = Packs-one (arg_byte b) (b ∷ []) (λ w. append_assoc w.buf _ _)

pub Packs-arg_int : (v : ℤ) → Packs (arg_int v) (be_bytes 4 (to_word (2 ^ 31) v) ∷ [])
unfolding arg_int arg
Packs-arg_int v = Packs-one (arg_int v) _ (λ w. rw (length-be_bytes) (append_assoc w.buf _ _))

pub Packs-arg_short : (v : ℤ) → Packs (arg_short v) (be_bytes 2 (to_word (2 ^ 15) v) ∷ [])
unfolding arg_short arg
Packs-arg_short v = Packs-one (arg_short v) _ (λ w. rw (length-be_bytes) (append_assoc w.buf _ _))

pub Packs-arg_long : (v : ℤ) → Packs (arg_long v) (be_bytes 8 (to_word (2 ^ 63) v) ∷ [])
unfolding arg_long arg
Packs-arg_long v = Packs-one (arg_long v) _ (λ w. rw (length-be_bytes) (append_assoc w.buf _ _))

pub Packs-arg_float : (bits : ℕ) → Packs (arg_float bits) (be_bytes 4 bits ∷ [])
unfolding arg_float arg
Packs-arg_float v = Packs-one (arg_float v) _ (λ w. rw (length-be_bytes) (append_assoc w.buf _ _))

pub Packs-arg_double : (bits : ℕ) → Packs (arg_double bits) (be_bytes 8 bits ∷ [])
unfolding arg_double arg
Packs-arg_double v = Packs-one (arg_double v) _ (λ w. rw (length-be_bytes) (append_assoc w.buf _ _))

pub Packs-arg_bytes : (p : Bytes) → FitsArg p → Packs (arg_bytes p) (p ∷ [])
unfolding arg_bytes arg
Packs-arg_bytes p h = Packs-one (arg_bytes p) p (λ w. rw (mod-eq_of_lt h) (append_assoc w.buf _ _))

pub Packs-arg_null : Packs arg_null ([] ∷ [])
unfolding arg_null arg
Packs-arg_null = Packs-one arg_null [] (λ w. ap (λ t. w.buf ++ t) (sym (append-nil _)))

-- A string travels with a NUL behind it, which its length counts.
pub Packs-arg_string :
    (s : Bytes) → FitsArg (s ++ 0 ∷ []) → Packs (arg_string s) ((s ++ 0 ∷ []) ∷ [])
unfolding arg_string arg
Packs-arg_string s h =
    let size : length (s ++ 0 ∷ []) ≡ length s + 1 = omega (arith, length-append s (0 ∷ [])) in
    Packs-one (arg_string s) (s ++ 0 ∷ []) (λ w.
      rw (size, mod-eq_of_lt {n = length s + 1} {m = 2 ^ 32} (omega (arith, size)))
        (simp append_assoc))

-- A whole request: the function code, raw, and the packed arguments.
pub Packs-request :
    (fn : ℕ) (f : Writer → Writer) (ps : List Bytes)
    → Packs f ps
    → (f (raw_byte fn new_writer)).buf ≡ fn ∷ pack ps
unfolding raw_byte
Packs-request fn f ps h = h.run (raw_byte fn new_writer)
