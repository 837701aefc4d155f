-- ===== src/Session/LobStream/Append.antt =====
-- The contract of `Append`: the count, the error and the locator's size agree.
use gocubrid.Prelude.{
  ℕ, zero, suc, ℤ, pos, negsuc, ◌+◌, ◌-◌, ◌^◌, ◌≤◌, ◌<◌, ◌≡◌, refl, ap, ◌∙◌, Bool, true, false,
  ◌||◌, not, length, length-take, length-drop, take, drop, none, leb, ltb, ltb_ℤ, leb_ℤ, pos_part,
  ◌+ℤ◌, of_word, to_word, of_word-to_word, if◌then◌else◌, arith,
}
use gocubrid.Exec.{Result, ok, err}
use gocubrid.Exec.Returns.{Returns, Returns-raise, Returns-pure, Returns-if, Returns-bind}
use gocubrid.Bytes.{Bytes}
use gocubrid.Value.{Lob}
use gocubrid.Protocol.LobHandle.{LobHandle, lob_max_chunk, set_size}
use gocubrid.Protocol.Status.{read_status}
use gocubrid.Session.Conn.{Conn}
use gocubrid.Session.LobStream.{
  Partial, round, min, add64, write_chunk, write_chunk_reply, append_loop, append,
}
use gocubrid.Session.LobStream.Read.{Returns-request}

abbrev IsChunkCount : ℕ → ℤ → Type 0
IsChunkCount chunk rc = (rc ≡ pos (pos_part rc)) × (1 ≤ pos_part rc) × (pos_part rc ≤ chunk)

chunk_count :
    (chunk : ℕ) (rc : ℤ) → leb_ℤ rc (pos 0) || ltb_ℤ (pos chunk) rc ≡ false → IsChunkCount chunk rc
chunk_count chunk (pos n) h = (refl, ground arith, ground arith)
chunk_count chunk (negsuc n) h = absurd (ground arith)

Returns-write_chunk :
    (h : LobHandle) (part : Bytes) → Returns (IsChunkCount (length part)) (write_chunk h part)
unfolding write_chunk write_chunk_reply
Returns-write_chunk h part = Returns-request _ _ (
    Returns-bind read_status _ λ rc.
      Returns-if (leb_ℤ rc (pos 0) || ltb_ℤ (pos (length part)) rc) _ _ (λ e. Returns-raise _)
        (λ e. Returns-pure rc (chunk_count (length part) rc e)))

add64-pos : (a b : ℕ) → a + b < 2 ^ 63 → add64 (pos a) (pos b) ≡ pos (a + b)
unfolding add64 ◌+ℤ◌
add64-pos a b h =
    let sum : (if leb 0 (a + b) then pos (a + b - 0) else negsuc (0 - (a + b) - 1)) ≡ pos (a + b) =
      ground arith in
    ap (λ v. of_word (2 ^ 63) (to_word (2 ^ 63) v)) sum ∙ of_word-to_word (2 ^ 63) (pos (a + b)) h

-- After an append of `want` bytes to a LOB of `size` bytes: `n` were written, the locator says so,
-- and without an error `n` is all of them.
abbrev pub IsAppended : ℕ → ℕ → Partial ℕ × (Conn × Lob) → Type 0
IsAppended size want r =
    (r.0.0 ≤ want) × (r.1.1.handle.size ≡ pos (size + r.0.0)) × (r.0.1 ≡ none → r.0.0 ≡ want)

round-IsAppended :
    (size want n : ℕ) (out : Result ℤ × (Conn × Lob))
    (k : ℤ → Conn × Lob → Partial ℕ × (Conn × Lob))
    → n ≤ want
    → out.1.1.handle.size ≡ pos (size + n)
    → ((rc : ℤ) → out.0 ≡ ok rc → IsAppended size want (k rc out.1))
    → IsAppended size want (round n out k)
round-IsAppended size want n (ok rc, s) k h e g = g rc refl
round-IsAppended size want n (err x, s) k h e g = (h, e, λ f. cc)

if-IsAppended :
    (b : Bool) (size want : ℕ) (x y : Partial ℕ × (Conn × Lob))
    → (b ≡ true → IsAppended size want x)
    → (b ≡ false → IsAppended size want y)
    → IsAppended size want (if b then x else y)
if-IsAppended true size want x y hx hy = hx refl
if-IsAppended false size want x y hx hy = hy refl

size_after :
    (size n : ℕ) (h : LobHandle) (rc : ℤ)
    → h.size ≡ pos (size + n)
    → rc ≡ pos (pos_part rc)
    → size + n + pos_part rc < 2 ^ 63
    → (set_size (add64 h.size rc) h).size ≡ pos (size + (n + pos_part rc))
unfolding set_size
size_after size n h rc e f small =
    let place : size + n + pos_part rc ≡ size + (n + pos_part rc) = omega arith in
    ap (λ v. add64 v rc) e
    ∙ ap (add64 (pos (size + n))) f
    ∙ add64-pos (size + n) (pos_part rc) small
    ∙ ap pos place

append_loop-IsAppended :
    (fuel size : ℕ) (p : Bytes) (n : ℕ) (s : Conn × Lob)
    → s.1.handle.size ≡ pos (size + n)
    → size + length p < 2 ^ 63
    → n ≤ length p
    → length p ≤ n + fuel
    → IsAppended size (length p) (append_loop fuel p n s)
unfolding append_loop
append_loop-IsAppended zero size p n s e fits small enough = (small, e, λ f. omega arith)
append_loop-IsAppended (suc fuel) size p n s e fits small enough =
    let part = take (min (length p - n) lob_max_chunk) (drop n p) in
    let wrote = write_chunk s.1.handle part s.0 in
    if-IsAppended (ltb n (length p)) size (length p) _ _
      (λ l.
        round-IsAppended size (length p) n (wrote.0, (wrote.1, s.1)) _ small e
          λ rc got.
            let m = (Returns-write_chunk s.1.handle part).at s.0 rc got in
            let short : length part ≤ length p - n =
              omega (
                arith,
                length-take (min (length p - n) lob_max_chunk) (drop n p),
                length-drop n p,
              ) in
            append_loop-IsAppended fuel size p (n + pos_part rc) _
              (size_after size n s.1.handle rc e m.0 (omega arith)) fits (omega arith)
              (omega arith))
      (λ l. (small, e, λ f. ground arith))

-- Appending to a writable LOB of known size, while the sum stays below 2^63, never counts more
-- bytes than it was given, counts fewer only with an error, and leaves a locator whose size is the
-- old one plus the count, on errors too.
pub append-IsAppended :
    (size : ℕ) (p : Bytes) (s : Conn × Lob)
    → s.1.writable ≡ true
    → s.1.handle.size ≡ pos size
    → size + length p < 2 ^ 63
    → IsAppended size (length p) (append p s)
unfolding append
append-IsAppended size p s w e fits =
    let start : size ≡ size + 0 = omega arith in
    let loop =
      append_loop-IsAppended (length p) size p 0 s (e ∙ ap pos start) fits (omega arith)
        (omega arith) in
    if-IsAppended (not s.1.writable) size (length p) _ _ (λ x. cc) (λ x. loop)
