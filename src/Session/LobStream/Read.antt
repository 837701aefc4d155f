-- ===== src/Session/LobStream/Read.antt =====
-- The contract of `ReadAt` and of the loop under it.
use gocubrid.Prelude.{
  ℕ, zero, suc, ℤ, pos, ◌+◌, ◌-◌, ◌≤◌, ◌≡◌, refl, Bool, true, false, [], ◌++◌, length,
  length-append, length-take, length-drop, drop, none, ltb, ltb→lt, ltb_ℤ, is_neg, pos_part,
  if◌then◌else◌, arith,
}
use gocubrid.Exec.{Result, ok, err, lift}
use gocubrid.Exec.Returns.{Returns, Returns-raise, Returns-lift, Returns-if, Returns-bind}
use gocubrid.Bytes.{Bytes}
use gocubrid.Wire.Reader
use gocubrid.Wire.Reader.{take_bytes, bytes}
use gocubrid.Protocol.LobHandle.{LobHandle, lob_max_chunk}
use gocubrid.Protocol.Status.{read_status}
use gocubrid.Session.Conn.{Conn, request, round_trip}
use gocubrid.Session.Rows.{is_zero}
use gocubrid.Session.LobStream.{
  Partial, round, min, add64, read_chunk_reply, read_chunk, read_loop, read_at,
}

-- The bytes of a `Bytes(n)` are exactly `n`, which is not negative.
Returns-bytes : (n : ℤ) → Returns (λ b. (is_neg n ≡ false) × (length b ≡ pos_part n)) (bytes n)
unfolding bytes take_bytes
Returns-bytes n = record {
  at =
      λ r b h. ground (arith, length-take (pos_part n) (drop r.off r.buf), length-drop r.off r.buf);
}

pub Returns-request {ℓ κ} :
    {A : Type ℓ} {P : A → Type κ} (payload : Bytes) (m : Reader.Read A)
    → Returns P m
    → Returns P (request payload m)
unfolding request
Returns-request payload m h =
    Returns-bind (round_trip payload) (λ r. lift (m r).0) λ r. Returns-lift (m r).0 (h.at r)

Returns-read_chunk_reply :
    (chunk : ℕ) → Returns (λ b. (1 ≤ length b) × (length b ≤ chunk)) (read_chunk_reply chunk)
unfolding read_chunk_reply is_zero
Returns-read_chunk_reply chunk = Returns-bind read_status _ λ rc.
    Returns-if (ltb_ℤ (pos chunk) rc) _ _ (λ e. Returns-raise _)
      λ e.
        Returns-if (is_zero rc) _ (bytes rc) (λ f. Returns-raise _)
          λ f. record { at = λ r b h. let n = (Returns-bytes rc).at r b h in ground arith }

Returns-read_chunk :
    (h : LobHandle) (off : ℤ) (chunk : ℕ)
    → Returns (λ b. (1 ≤ length b) × (length b ≤ chunk)) (read_chunk h off chunk)
unfolding read_chunk
Returns-read_chunk h off chunk = Returns-request _ _ (Returns-read_chunk_reply chunk)

-- What a read of `want` bytes promises of the bytes and the error that it gives.
abbrev pub IsRead : ℕ → Partial Bytes → Type 0
IsRead want r = (length r.0 ≤ want) × (r.1 ≡ none → length r.0 ≡ want)

round-IsRead :
    (want : ℕ) (done : Bytes) (out : Result Bytes × Conn) (k : Bytes → Conn → Partial Bytes × Conn)
    → length done ≤ want
    → ((b : Bytes) → out.0 ≡ ok b → IsRead want (k b out.1).0)
    → IsRead want (round done out k).0
round-IsRead want done (ok b, s) k h g = g b refl
round-IsRead want done (err e, s) k h g = (h, λ e. cc)

if-IsRead :
    (b : Bool) (want : ℕ) (x y : Partial Bytes × Conn)
    → (b ≡ true → IsRead want x.0)
    → (b ≡ false → IsRead want y.0)
    → IsRead want (if b then x else y).0
if-IsRead true want x y hx hy = hx refl
if-IsRead false want x y hx hy = hy refl

-- Fuel for as many bytes as are missing is enough: the loop ends by itself.
read_loop-IsRead :
    (fuel : ℕ) (h : LobHandle) (off : ℤ) (want : ℕ) (done : Bytes) (c : Conn)
    → length done ≤ want
    → want ≤ length done + fuel
    → IsRead want (read_loop fuel h off want done c).0
unfolding read_loop
read_loop-IsRead zero h off want done c small enough = (small, λ e. omega arith)
read_loop-IsRead (suc fuel) h off want done c small enough =
    let chunk = min (want - length done) lob_max_chunk in
    let place = add64 off (pos (length done)) in
    let fits : chunk ≤ want - length done = ground arith in
    if-IsRead (ltb (length done) want) want _ _
      (λ e. round-IsRead want done (read_chunk h place chunk c) _ small λ b got.
        let n = (Returns-read_chunk h place chunk).at c b got in
        read_loop-IsRead fuel h off want (done ++ b) _
          (omega (arith, n.1, fits, length-append done b, ltb→lt _ _ e))
          (omega (arith, n.0, enough, length-append done b)))
      (λ e. (small, λ f. ground arith))

-- `ReadAt` never gives more bytes than the buffer has, and gives fewer only with an error, whatever
-- the broker answers to the chunks.
pub read_at-IsRead :
    (h : LobHandle) (want : ℕ) (off : ℤ) (c : Conn) → IsRead want (read_at h want off c).0
unfolding read_at
read_at-IsRead h want off c =
    if-IsRead (ltb_ℤ off (pos 0)) want _ _ (λ e. (omega arith, λ f. cc))
      (λ e. read_loop-IsRead want h off want [] c (omega arith) (omega arith))
