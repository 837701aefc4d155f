-- ===== src/Config/Hosts/Joined.antt =====
-- Joining a host and a port, and splitting them again.
use gocubrid.Prelude.{
  ℕ, suc, ◌-◌, ◌≤◌, ◌≡◌, refl, ap, sym, ◌∙◌, true, false, Bool-cases, inl, inr, List, [], ◌∷◌, ◌++◌,
  length, length-append, drop, take-append_left, append_assoc, some, ◌==◌, arith,
}
use gocubrid.Bytes.{Bytes}
use gocubrid.Config.Hosts.{
  index_of, last_index_of, contains, parts, split_at, split_bracketed, split_colon, split_host_port,
  join_host_port, is_digit,
}
use gocubrid.Config.Hosts.Digits.{IsNumber}
use gocubrid.Config.Hosts.Search.{
  absent-append, absent-cons, index_of-append, last_index_of-append, digits-absent,
}

-- A host: not empty, without brackets.
abbrev pub IsHost : Bytes → Type 0
IsHost h = (1 ≤ length h) × (contains b'[' h ≡ false) × (contains b']' h ≡ false)

-- The colon in front of a port is no bracket.
port-absent :
    (c : ℕ) (port : Bytes)
    → (b':' == c) ≡ false
    → is_digit c ≡ false
    → IsNumber port
    → contains c (b':' ∷ port) ≡ false
unfolding contains
port-absent c port h d n = rw (h) (digits-absent c port d n)

drop-after {ℓ} :
    {A : Type ℓ} (xs : List A) (y : A) (ys : List A) → drop (suc (length xs)) (xs ++ y ∷ ys) ≡ ys
drop-after [] y ys = refl
drop-after (x ∷ xs) y ys = drop-after xs y ys

drop-after_two {ℓ} :
    {A : Type ℓ} (xs : List A) (y z : A) (ys : List A)
    → drop (suc (suc (length xs))) (xs ++ y ∷ z ∷ ys) ≡ ys
drop-after_two [] y z ys = refl
drop-after_two (x ∷ xs) y z ys = drop-after_two xs y z ys

open-absent : (h : Bytes) → contains b']' h ≡ false → contains b']' (b'[' ∷ h) ≡ false
unfolding contains
open-absent h e = e

closed-absent : (port : Bytes) → IsNumber port → contains b'[' (b']' ∷ b':' ∷ port) ≡ false
unfolding contains
closed-absent port n = digits-absent b'[' port refl n

-- A plain host: the last colon is the one before the port.
split-plain :
    (h port : Bytes)
    → IsHost h
    → IsNumber port
    → contains b':' h ≡ false
    → split_host_port (h ++ b':' ∷ port) ≡ parts h port
unfolding split_host_port split_colon split_at
split-plain [] port i n c = absurd (omega (arith, i.0))
split-plain (x ∷ xs) port i n c =
    let h = x ∷ xs in
    let s = h ++ b':' ∷ port in
    let colon = last_index_of-append b':' h port (digits-absent b':' port refl n) in
    let first = (absent-cons b'[' x xs i.1).0 in
    let cut = take-append_left h (b':' ∷ port) in
    let left : contains b'[' s ≡ false =
      absent-append b'[' h (b':' ∷ port) i.1 (port-absent b'[' port refl refl n) in
    let right : contains b']' s ≡ false =
      absent-append b']' h (b':' ∷ port) i.2 (port-absent b']' port refl refl n) in
    let after : drop (suc (length h)) s ≡ port = drop-after h b':' port in
    simp (colon, first, cut, c, left, right, after)

-- A host with a colon stands in brackets.
split-brackets :
    (h port : Bytes)
    → IsHost h
    → IsNumber port
    → split_host_port (b'[' ∷ h ++ b']' ∷ b':' ∷ port) ≡ parts h port
unfolding split_host_port split_colon split_bracketed split_at
split-brackets h port i n =
    let tail = b']' ∷ b':' ∷ port in
    let s = b'[' ∷ h ++ tail in
    let front = b'[' ∷ h ++ b']' ∷ [] in
    let same : s ≡ front ++ b':' ∷ port =
      ap (λ t. b'[' ∷ t) (sym (append_assoc h (b']' ∷ []) (b':' ∷ port))) in
    let size : length front ≡ suc (suc (length h)) = omega (arith, length-append h (b']' ∷ [])) in
    let colon : last_index_of b':' s ≡ some (suc (suc (length h))) =
      ap (last_index_of b':') same
      ∙ last_index_of-append b':' front port (digits-absent b':' port refl n)
      ∙ ap some size in
    let bracket : index_of b']' s ≡ some (suc (length h)) =
      index_of-append b']' (b'[' ∷ h) (b':' ∷ port) (open-absent h i.2) in
    let whole : (suc (suc (length h)) == length s) ≡ false = ground (arith, length-append h tail) in
    let cut = take-append_left h tail in
    let left : contains b'[' (h ++ tail) ≡ false =
      absent-append b'[' h tail i.1 (closed-absent port n) in
    let right : contains b']' (drop (suc (suc (length h))) s) ≡ false =
      ap (contains b']') (drop-after h b']' (b':' ∷ port)) ∙ port-absent b']' port refl refl n in
    let after : drop (suc (suc (suc (length h)))) s ≡ port = drop-after_two h b']' b':' port in
    let minus : length (b'[' ∷ h) - 1 ≡ length h = omega arith in
    let meets : (suc (length (b'[' ∷ h)) == suc (suc (length h))) ≡ true = ground arith in
    simp (colon, bracket, whole, meets, minus, cut, left, right, after)

pub split-join :
    (h port : Bytes)
    → IsHost h
    → IsNumber port
    → split_host_port (join_host_port h port) ≡ parts h port
unfolding join_host_port
split-join h port i n = elim (Bool-cases (contains b':' h)) [
  | inl e ↦ rw (e) (split-brackets h port i n)
  | inr e ↦ rw (e) (split-plain h port i n e)
]
