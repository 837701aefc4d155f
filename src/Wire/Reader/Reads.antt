-- ===== src/Wire/Reader/Reads.antt =====
-- What the methods of `Reader` read off the front of the payload, and how such readings compose.
use gocubrid.Prelude.{
  ℕ, ℤ, pos, ◌+◌, ◌-◌, ◌*◌, ◌^◌, ◌<◌, ◌≡◌, refl, ap, ◌∙◌, sym, subst, [], ◌∷◌, ◌++◌, length, take,
  get_or, append_assoc, append-nil, length-append, take-append_left, drop-append_left, arith,
  to_word, of_word, of_word-to_word, to_word-lt, FitsWord, leb_ℤ, ltb, le→ltb, lt→ltb,
  if◌then◌else◌,
}
use gocubrid.Errors.{Error, short_buffer}
use gocubrid.Exec.{Result, ok, err, lift, pure, wrap, ◌>>=◌, continue}
use gocubrid.Bytes.{Bytes, be_uint, be_bytes, be_uint-be_bytes, length-be_bytes}
use gocubrid.Wire.Args.{arg}
use gocubrid.Wire.Reader.{Read, at, take_bytes, byte, int16, int32, int64, bytes, strip_nul, string}

-- `m` reads exactly the bytes `bs`, wherever it stands and whatever follows, and gives `a`.
pub record Reads {ℓ} {A : Type ℓ} (m : Read A) (bs : Bytes) (a : A) : Type ℓ where
  pub run : (front rest : Bytes) → m (at front (bs ++ rest)) ≡ (ok a, at (front ++ bs) rest)

at-append :
    (front bs rest : Bytes)
    → at front (bs ++ rest) ≡ record { buf = (front ++ bs) ++ rest; off = length front }
at-append front bs rest =
    ap (λ t. record { buf = t; off = length front }) (sym (append_assoc front bs rest))

-- `take` at the seam of what was read and what is left: either it fits, or nothing changes.
pub take_bytes-at :
    (n : ℕ) (front xs : Bytes)
    → take_bytes (pos n) (at front xs) ≡ (
        if ltb (length xs) n
        then (err short_buffer, at front xs)
        else (ok (take n xs), record { buf = front ++ xs; off = length front + n }))
unfolding take_bytes
take_bytes-at n front xs = rw (drop-append_left front xs) (ground (arith, length-append front xs))

-- Reading exactly what stands there.
pub Reads-take_bytes : (bs : Bytes) → Reads (take_bytes (pos (length bs))) bs bs
Reads-take_bytes bs = record {
  run = λ front rest.
      take_bytes-at (length bs) front (bs ++ rest)
      ∙ rw (
        le→ltb (length (bs ++ rest)) (length bs) (omega (arith, length-append bs rest)),
        take-append_left bs rest,
        ← append_assoc front bs rest,
        ← length-append front bs,
      );
}

Reads-size : (n : ℕ) (bs : Bytes) → length bs ≡ n → Reads (take_bytes (pos n)) bs bs
Reads-size n bs e = subst (λ k. Reads (take_bytes (pos k)) bs bs) e (Reads-take_bytes bs)

module _ {ℓ κ} {A : Type ℓ} {B : Type κ} where
  -- One reading after another.
  pub Reads-bind :
      (m : Read A) (f : A → Read B) (bs cs : Bytes) (a : A) (b : B)
      → Reads m bs a
      → Reads (f a) cs b
      → Reads (m >>= f) (bs ++ cs) b
  Reads-bind m f bs cs a b hm hf = record {
    run = λ front rest.
        let first : m (at front ((bs ++ cs) ++ rest)) ≡ (ok a, at (front ++ bs) (cs ++ rest)) =
          rw (append_assoc bs cs rest) (hm.run front (cs ++ rest)) in
        ap (λ t. continue t.0 f t.1) first
        ∙ hf.run (front ++ bs) rest
        ∙ rw (append_assoc front bs cs);
  }

module _ {ℓ} {A : Type ℓ} where
  pub Reads-pure : (a : A) → Reads (pure a) [] a
  Reads-pure a = record { run = λ front rest. rw (append-nil front) }

  -- The last step of a `do` block, which computes what the bytes mean.
  pub Reads-map {κ} :
      {B : Type κ} (m : Read B) (f : B → A) (bs : Bytes) (b : B)
      → Reads m bs b
      → Reads (m >>= λ x. pure (f x)) bs (f b)
  Reads-map m f bs b h = record { run = λ front rest. rw (h.run front rest) }

  pub Reads-wrap :
      (e : Error → Error) (m : Read A) (bs : Bytes) (a : A) → Reads m bs a → Reads (wrap e m) bs a
  Reads-wrap e m bs a h = record { run = λ front rest. rw (h.run front rest) }

pub Reads-byte : (b : ℕ) → Reads byte (b ∷ []) b
unfolding byte
Reads-byte b = Reads-map _ _ _ _ (Reads-take_bytes (b ∷ []))

-- An integer method is `take`, then the word's integer.
Reads-word :
    (half n : ℕ) (v : ℤ)
    → 0 < half
    → 2 * half ≡ 256 ^ n
    → FitsWord half v
    → Reads
        (take_bytes (pos n) >>= λ b. pure (of_word half (be_uint b)))
        (be_bytes n (to_word half v))
        v
Reads-word half n v h0 e h =
    let fits : to_word half v < 256 ^ n = rw (← e) (to_word-lt half v h0) in
    let value : of_word half (be_uint (be_bytes n (to_word half v))) ≡ v =
      rw (be_uint-be_bytes n (to_word half v) fits) (of_word-to_word half v h) in
    let word : Bytes = be_bytes n (to_word half v) in
    subst (λ z. Reads (take_bytes (pos n) >>= λ b. pure (of_word half (be_uint b))) word z) value
      (Reads-map _ _ _ _ (Reads-size n word (length-be_bytes n (to_word half v))))

pub Reads-int16 : (v : ℤ) → FitsWord (2 ^ 15) v → Reads int16 (be_bytes 2 (to_word (2 ^ 15) v)) v
unfolding int16
Reads-int16 v h = Reads-word (2 ^ 15) 2 v (omega arith) refl h

pub Reads-int32 : (v : ℤ) → FitsWord (2 ^ 31) v → Reads int32 (be_bytes 4 (to_word (2 ^ 31) v)) v
unfolding int32
Reads-int32 v h = Reads-word (2 ^ 31) 4 v (omega arith) refl h

pub Reads-int64 : (v : ℤ) → FitsWord (2 ^ 63) v → Reads int64 (be_bytes 8 (to_word (2 ^ 63) v)) v
unfolding int64
Reads-int64 v h = Reads-word (2 ^ 63) 8 v (omega arith) refl h

pub Reads-bytes : (bs : Bytes) → Reads (bytes (pos (length bs))) bs bs
unfolding bytes
Reads-bytes bs = Reads-take_bytes bs

get_or-append_right : (s : Bytes) (b d : ℕ) → get_or (s ++ b ∷ []) (length s) d ≡ b
get_or-append_right [] b d = refl
get_or-append_right (x ∷ s) b d = get_or-append_right s b d

pub strip_nul-append : (s : Bytes) → strip_nul (s ++ 0 ∷ []) ≡ s
unfolding strip_nul
strip_nul-append s =
    let size : length (s ++ 0 ∷ []) - 1 ≡ length s = omega (arith, length-append s (0 ∷ [])) in
    rw (size, get_or-append_right s 0 0) (take-append_left s (0 ∷ []))

-- A count or a length is an int32 that is not negative.
pub Reads-count : (n : ℕ) → n < 2 ^ 31 → Reads int32 (be_bytes 4 n) (pos n)
Reads-count n h =
    let e : to_word (2 ^ 31) (pos n) ≡ n = unfold to_word in omega arith in
    subst (λ u. Reads int32 (be_bytes 4 u) (pos n)) e (Reads-int32 (pos n) h)

string_body : ℤ → Read Bytes
string_body n = if leb_ℤ n (pos 0) then pure [] else (take_bytes n >>= λ b. pure (strip_nul b))

string_body-pos :
    (n : ℕ) → 0 < n → string_body (pos n) ≡ (take_bytes (pos n) >>= λ b. pure (strip_nul b))
unfolding string_body
string_body-pos n h = rw (lt→ltb 0 (n + 0) (omega arith))

string_body-append : (s : Bytes) → Reads (string_body (pos (length (s ++ 0 ∷ [])))) (s ++ 0 ∷ []) s
string_body-append s =
    let whole = Reads-map _ strip_nul _ _ (Reads-take_bytes (s ++ 0 ∷ [])) in
    rw (string_body-pos (length (s ++ 0 ∷ [])) (omega (arith, length-append s (0 ∷ [])))) (
      subst
        (λ t.
          Reads (take_bytes (pos (length (s ++ 0 ∷ []))) >>= λ b. pure (strip_nul b)) (s ++ 0 ∷ [])
            t)
        (strip_nul-append s) whole)

-- The wire form of a string is its length with the NUL, the string, and the NUL.
pub Reads-string : (s : Bytes) → length s + 1 < 2 ^ 31 → Reads string (arg (s ++ 0 ∷ [])) s
unfolding string arg string_body
Reads-string s h =
    let size : length (s ++ 0 ∷ []) ≡ length s + 1 = omega (arith, length-append s (0 ∷ [])) in
    Reads-bind int32 string_body _ _ (pos (length (s ++ 0 ∷ []))) s
      (Reads-count (length (s ++ 0 ∷ [])) (omega (arith, size))) (string_body-append s)

-- A step that fails or succeeds without reading.
pub Reads-lift {ℓ} : {A : Type ℓ} (r : Result A) (a : A) → r ≡ ok a → Reads (lift r) [] a
Reads-lift r a e = record { run = λ front rest. rw (e, append-nil front) }
