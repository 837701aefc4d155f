-- ===== src/Session/LobStream.antt =====
-- cubrid/lob.go: reading and writing a LOB in chunks. A Go method that returns a count and an error
-- gives both here. The loops recurse on fuel, the number of bytes still to move, since every round
-- moves at least one.
pub mod Read
pub mod Append
pub mod Follows
use gocubrid.Prelude.{
  ℕ, zero, suc, ℤ, pos, ◌+◌, ◌-◌, ◌^◌, Bool, true, false, ◌||◌, not, List, [], ◌∷◌, ◌++◌, length,
  take, drop, Option, none, some, leb, ltb, ltb_ℤ, leb_ℤ, pos_part, ◌+ℤ◌, of_word, to_word, ◌==◌,
  if◌then◌else◌,
}
use gocubrid.Errors.{Error, eof, negative_offset, read_lob_count, write_lob_count, lob_read_only}
use gocubrid.Exec.{Result, ok, err, Exec, pure, raise, lift, ◌>>=◌}
use gocubrid.Bytes.{Bytes}
use gocubrid.Value.{Lob}
use gocubrid.Wire.Writer.{Writer, new_writer}
use gocubrid.Wire.Reader.{Reader, bytes}
use gocubrid.Wire.Reader
use gocubrid.Protocol.Codes.Types
use gocubrid.Protocol.LobHandle.{LobHandle, lob_max_chunk, parse_lob_handle, set_size}
use gocubrid.Protocol.Requests.{new_lob_request, read_lob_request, write_lob_request}
use gocubrid.Protocol.Status.{read_status}
use gocubrid.Session.Conn.{Conn, request}
use gocubrid.Session.Rows.{is_zero}

-- The status is the length of the packed handle.
unfoldable pub read_new_lob : Bool → Reader.Read Lob
read_new_lob is_clob = do
  n ← read_status
  raw ← bytes n
  h ← lift (parse_lob_handle raw)
  pure (record { handle = h; is_clob = is_clob; writable = true })

-- `newLob`, with `NewBlob` and `NewClob`.
unfoldable pub new_lob : Bool → Exec Conn Lob
new_lob is_clob =
    request (new_lob_request (pos (if is_clob then Types.clob else Types.blob)) new_writer).buf
      (read_new_lob is_clob)

abbrev pub min : ℕ → ℕ → ℕ
min a b = if leb a b then a else b

-- An int64 sum.
unfoldable pub add64 : ℤ → ℤ → ℤ
add64 a b = of_word (2 ^ 63) (to_word (2 ^ 63) (a +ℤ b))

-- The reply to READ_LOB: the status is the number of bytes, none at the end.
unfoldable pub read_chunk_reply : ℕ → Reader.Read Bytes
read_chunk_reply chunk = do
  rc ← read_status
  if ltb_ℤ (pos chunk) rc
      then raise (read_lob_count rc chunk)
      else (if is_zero rc then raise eof else bytes rc)

unfoldable pub read_chunk : LobHandle → ℤ → ℕ → Exec Conn Bytes
read_chunk h off chunk =
    request (read_lob_request h off (pos chunk) new_writer).buf (read_chunk_reply chunk)

abbrev pub Partial {ℓ} : Type ℓ → Type ℓ
Partial A = A × Option Error

-- One round of a loop: its error ends it, with what was moved before.
abbrev pub round {ℓ κ ι} :
    {S : Type ℓ} {A : Type κ} {B : Type ι}
    → A
    → Result B × S
    → (B → S → Partial A × S)
    → Partial A × S
round done (ok b, s) k = k b s
round done (err e, s) k = ((done, some e), s)

-- `for n < len(p)`: `want` is `len(p)` and `done` is `p[:n]`.
unfoldable pub read_loop : ℕ → LobHandle → ℤ → ℕ → Bytes → Conn → Partial Bytes × Conn
read_loop zero h off want done c = ((done, none), c)
read_loop (suc fuel) h off want done c =
    let chunk = min (want - length done) lob_max_chunk in
    let out =
      round done (read_chunk h (add64 off (pos (length done))) chunk c)
        (λ b c'. read_loop fuel h off want (done ++ b) c') in
    if ltb (length done) want then out else ((done, none), c)

-- `ReadAt` into a buffer of `want` bytes.
unfoldable pub read_at : LobHandle → ℕ → ℤ → Conn → Partial Bytes × Conn
read_at h want off c =
    if ltb_ℤ off (pos 0)
    then (([], some (negative_offset off)), c)
    else read_loop want h off want [] c

unfoldable pub is_eof : Error → Bool
is_eof eof = true
is_eof e = false

-- `ReadAll`: after each `ReadAt`, the end stops the loop and any other error drops what was read.
unfoldable pub next_part :
    Bytes → Partial Bytes × Conn → (Bytes → Conn → Result Bytes × Conn) → Result Bytes × Conn
next_part out ((b, none), c) k = if length b == 0 then (ok (out ++ b), c) else k (out ++ b) c
next_part out ((b, some e), c) k = if is_eof e then (ok (out ++ b), c) else (err e, c)

unfoldable pub read_all_loop : ℕ → LobHandle → Bytes → Conn → Result Bytes × Conn
read_all_loop zero h out c = (ok out, c)
read_all_loop (suc fuel) h out c =
    let size = pos_part h.size in
    let got =
      next_part out (read_at h (min (size - length out) lob_max_chunk) (pos (length out)) c)
        (λ out' c'. read_all_loop fuel h out' c') in
    if ltb (length out) size then got else (ok out, c)

unfoldable pub read_all : LobHandle → Exec Conn Bytes
read_all h c = read_all_loop (pos_part h.size) h [] c

unfoldable pub write_chunk_reply : ℕ → Reader.Read ℤ
write_chunk_reply chunk = do
  rc ← read_status
  if leb_ℤ rc (pos 0) || ltb_ℤ (pos chunk) rc then raise (write_lob_count rc chunk) else pure rc

unfoldable pub write_chunk : LobHandle → Bytes → Exec Conn ℤ
write_chunk h part =
    request (write_lob_request h h.size part new_writer).buf (write_chunk_reply (length part))

-- `for n < len(p)` of `Append`: the locator's size advances with every chunk.
unfoldable pub append_loop : ℕ → Bytes → ℕ → Conn × Lob → Partial ℕ × (Conn × Lob)
append_loop zero p n s = ((n, none), s)
append_loop (suc fuel) p n s =
    let part = take (min (length p - n) lob_max_chunk) (drop n p) in
    let wrote = write_chunk s.1.handle part s.0 in
    let out =
      round n (wrote.0, (wrote.1, s.1))
        (λ rc t.
          append_loop fuel p (n + pos_part rc)
            (t.0, record t.1 { handle = set_size (add64 t.1.handle.size rc) t.1.handle })) in
    if ltb n (length p) then out else ((n, none), s)

unfoldable pub append : Bytes → Conn × Lob → Partial ℕ × (Conn × Lob)
append p s = if not s.1.writable then ((0, some lob_read_only), s) else append_loop (length p) p 0 s
