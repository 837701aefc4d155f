-- ===== src/Config/Hosts/FixedPoint.antt =====
-- An address that `splitAltHost` accepts, joined again, is accepted with the same host and port.
use gocubrid.Prelude.{
  ℕ, zero, suc, ℤ, pos, negsuc, ◌-◌, ◌≤◌, ◌≡◌, refl, ap, ◌∙◌, subst, true, false, ◌||◌, Bool-cases,
  inl, inr, [], ◌∷◌, length, get_or, take, drop, Option, none, some, ltb, ◌==◌, if◌then◌else◌,
  arith,
}
use gocubrid.Exec.{Result, ok, err}
use gocubrid.Bytes.{Bytes}
use gocubrid.Config.Hosts.{
  index_of, last_index_of, contains, Split, parts, missing_port, other_error, split_at,
  split_bracketed, split_colon, split_host_port, join_host_port, atoi, itoa, with_port, bare_host,
  strip_brackets, split_entry, split_alt_host,
}
use gocubrid.Config.Hosts.Digits.{itoa-IsNumber, atoi-itoa}
use gocubrid.Config.Hosts.Search.{absent-cons, absent-take, absent-before}
use gocubrid.Config.Hosts.Joined.{IsHost, split-join}

-- A host and a port that are in order come back from their address.
split_alt_host-join :
    (h : Bytes) (p : ℕ)
    → IsHost h
    → 1 ≤ p
    → p ≤ 65535
    → split_alt_host (join_host_port h (itoa p)) ≡ ok (h, p)
unfolding split_alt_host split_entry with_port
split_alt_host-join h p i one most =
    let some_host : (length h == 0) ≡ false = ground (arith, i.0) in
    let port : ((p == 0) || ltb 65535 p) ≡ false = ground arith in
    simp (split-join h (itoa p) i (itoa-IsNumber p), some_host, atoi-itoa p (omega arith), port)

-- What `splitAltHost` accepts.
abbrev Accepted : Bytes × ℕ → Type 0
Accepted r = IsHost r.0 × (1 ≤ r.1) × (r.1 ≤ 65535)

abbrev Accepts : Result (Bytes × ℕ) → Type 0
Accepts (ok r) = Accepted r
Accepts (err e) = Unit

with_port-Accepts : (s h : Bytes) (n : Option ℤ) → IsHost h → Accepts (with_port s h n)
unfolding with_port
with_port-Accepts s h none i = tt
with_port-Accepts s h (some (negsuc n)) i = tt
with_port-Accepts s h (some (pos n)) i = elim (Bool-cases ((n == 0) || ltb 65535 n)) [
  | inl e ↦ rw (e) tt
  | inr e ↦ rw (e) (i, ground arith, ground arith)
]

bare_host-Accepts : (s h : Bytes) → Accepts (bare_host s h)
unfolding bare_host
bare_host-Accepts s h = elim (Bool-cases (length h == 0)) [
  | inl e ↦ rw (e) tt
  | inr e ↦ rw (e) (elim (Bool-cases (contains b'[' h || contains b']' h)) [
    | inl f ↦ rw (f) tt
    | inr f ↦ rw (f) ((ground arith, ground arith, ground arith), omega arith, omega arith)
  ])
]

-- The host of a split has no brackets.
abbrev Unbracketed : Split → Type 0
Unbracketed (parts h port) = (contains b'[' h ≡ false) × (contains b']' h ≡ false)
Unbracketed missing_port = Unit
Unbracketed other_error = Unit

split_at-Unbracketed :
    (s : Bytes) (i : ℕ) (h : Bytes) (j k : ℕ)
    → (contains b'[' (drop j s) ≡ false → contains b'[' h ≡ false)
    → (contains b']' (drop k s) ≡ false → contains b']' h ≡ false)
    → Unbracketed (split_at s i h j k)
unfolding split_at
split_at-Unbracketed s i h j k left right =
    elim (Bool-cases (contains b'[' (drop j s) || contains b']' (drop k s))) [
      | inl e ↦ rw (e) tt
      | inr e ↦ rw (e) (left (ground arith), right (ground arith))
    ]

inner-absent :
    (s : Bytes) (end : ℕ)
    → (get_or s 0 0 == b'[') ≡ true
    → index_of b']' s ≡ some end
    → contains b']' (take (end - 1) (drop 1 s)) ≡ false
unfolding contains
inner-absent [] end f h = absurd (ground arith)
inner-absent (x ∷ xs) zero f h = refl
inner-absent (x ∷ xs) (suc end) f h =
    let before = (absent-cons b']' x (take end xs) (absent-before b']' (x ∷ xs) (suc end) h)).1 in
    let minus : suc end - 1 ≡ end = omega arith in
    ap (λ k. contains b']' (take k xs)) minus ∙ before

split_bracketed-Unbracketed :
    (s : Bytes) (i : ℕ) (end : Option ℕ)
    → (get_or s 0 0 == b'[') ≡ true
    → index_of b']' s ≡ end
    → Unbracketed (split_bracketed s i end)
unfolding split_bracketed
split_bracketed-Unbracketed s i none f h = tt
split_bracketed-Unbracketed s i (some end) f h = elim (Bool-cases (suc end == length s)) [
  | inl e ↦ rw (e) tt
  | inr e ↦ rw (e) (elim (Bool-cases (suc end == i)) [
    | inl g ↦ rw (g) (
        split_at-Unbracketed s i (take (end - 1) (drop 1 s)) 1 (suc end)
          (absent-take b'[' (end - 1) (drop 1 s)) (λ _. inner-absent s end f h))
    | inr g ↦
        rw (g)
          (elim (get_or s (suc end) 0 == b':')
            as (λ b. Unbracketed (if b then other_error else missing_port)) [
              | true ↦ tt
              | false ↦ tt
            ])
  ])
]

split_colon-Unbracketed : (s : Bytes) (i : Option ℕ) → Unbracketed (split_colon s i)
unfolding split_colon
split_colon-Unbracketed s none = tt
split_colon-Unbracketed s (some i) = elim (Bool-cases (get_or s 0 0 == b'[')) [
  | inl e ↦ rw (e) (split_bracketed-Unbracketed s i (index_of b']' s) e refl)
  | inr e ↦
      rw (e)
        (elim (contains b':' (take i s))
          as (λ b. Unbracketed (if b then other_error else split_at s i (take i s) 0 0)) [
            | true ↦ tt
            | false ↦
                split_at-Unbracketed s i (take i s) 0 0 (absent-take b'[' i s)
                  (absent-take b']' i s)
          ])
]

split_entry-Accepts : (s : Bytes) (p : Split) → Unbracketed p → Accepts (split_entry s p)
unfolding split_entry
split_entry-Accepts s other_error u = tt
split_entry-Accepts s missing_port u = bare_host-Accepts s (strip_brackets s)
split_entry-Accepts s (parts h port) u = elim (Bool-cases (length h == 0)) [
  | inl e ↦ rw (e) tt
  | inr e ↦ rw (e) (with_port-Accepts s h (atoi port) (ground arith, u.0, u.1))
]

split_alt_host-Accepts : (s : Bytes) → Accepts (split_alt_host s)
unfolding split_alt_host split_host_port
split_alt_host-Accepts s =
    split_entry-Accepts s (split_host_port s) (split_colon-Unbracketed s (last_index_of b':' s))

-- Whatever `splitAltHost` accepts has a host without brackets, a port from 1 to 65535, and comes
-- back with the same host and port when it is joined and split again.
pub split_alt_host-fixed :
    (s h : Bytes) (p : ℕ)
    → split_alt_host s ≡ ok (h, p)
    → IsHost h × (1 ≤ p) × (p ≤ 65535) × (split_alt_host (join_host_port h (itoa p)) ≡ ok (h, p))
split_alt_host-fixed s h p e =
    let (i, one, most) = subst Accepts e (split_alt_host-Accepts s) in
    (i, one, most, split_alt_host-join h p i one most)
