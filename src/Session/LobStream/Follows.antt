-- ===== src/Session/LobStream/Follows.antt =====
-- Creating, reading and writing a LOB moves a connection as every exchange does.
use gocubrid.Prelude.{
  ℕ, zero, suc, ℤ, pos, ◌+◌, ◌-◌, Bool, true, false, [], ◌++◌, length, take, drop, none, some, ltb,
  ltb_ℤ, not, pos_part, ◌==◌, if◌then◌else◌,
}
use gocubrid.Exec.{Result, ok, err}
use gocubrid.Bytes.{Bytes}
use gocubrid.Value.{Lob}
use gocubrid.Protocol.LobHandle.{LobHandle, lob_max_chunk, set_size}
use gocubrid.Session.Conn.{Conn}
use gocubrid.Session.Conn.Follows.{Follows, follows, Moves-request}
use gocubrid.Session.LobStream.{
  Partial, new_lob, read_chunk, read_loop, read_at, next_part, is_eof, read_all_loop, read_all,
  write_chunk, append_loop, append, round, add64, min,
}

by_either {ℓ κ} :
    {A : Type ℓ} {S : Type κ} (conn_of : S → Conn) (b : Bool) (c : Conn) (x y : A × S)
    → Follows c (conn_of x.1)
    → Follows c (conn_of y.1)
    → Follows c (conn_of (if b then x else y).1)
by_either conn_of true c x y hx hy = hx
by_either conn_of false c x y hx hy = hy

round-Follows {ℓ κ ι} :
    {S : Type ℓ} {A : Type κ} {B : Type ι} (conn_of : S → Conn) (c : Conn) (done : A) (r : Result B)
    (s : S) (k : B → S → Partial A × S)
    → Follows c (conn_of s)
    → ((b : B) → Follows (conn_of s) (conn_of (k b s).1))
    → Follows c (conn_of (round done (r, s) k).1)
round-Follows conn_of c done (ok b) s k h g = follows.chain h (g b)
round-Follows conn_of c done (err e) s k h g = h

pub new_lob-Follows : (is_clob : Bool) (c : Conn) → Follows c (new_lob is_clob c).1
unfolding new_lob
new_lob-Follows is_clob c = (Moves-request _ _).step c

read_chunk-Follows :
    (h : LobHandle) (off : ℤ) (chunk : ℕ) (c : Conn) → Follows c (read_chunk h off chunk c).1
unfolding read_chunk
read_chunk-Follows h off chunk c = (Moves-request _ _).step c

read_loop-Follows :
    (fuel : ℕ) (h : LobHandle) (off : ℤ) (want : ℕ) (done : Bytes) (c : Conn)
    → Follows c (read_loop fuel h off want done c).1
unfolding read_loop
read_loop-Follows zero h off want done c = follows.stay c
read_loop-Follows (suc fuel) h off want done c =
    let chunk = min (want - length done) lob_max_chunk in
    let got = read_chunk h (add64 off (pos (length done))) chunk c in
    let more = λ (b : Bytes) (c' : Conn). read_loop fuel h off want (done ++ b) c' in
    by_either (λ s. s) (ltb (length done) want) c (round done got more) ((done, none), c)
      (round-Follows (λ s. s) c done got.0 got.1 more (read_chunk-Follows h _ chunk c)
        (λ b. read_loop-Follows fuel h off want (done ++ b) got.1))
      (follows.stay c)

pub read_at-Follows :
    (h : LobHandle) (want : ℕ) (off : ℤ) (c : Conn) → Follows c (read_at h want off c).1
unfolding read_at
read_at-Follows h want off c =
    by_either (λ s. s) (ltb_ℤ off (pos 0)) c _ _ (follows.stay c)
      (read_loop-Follows want h off want [] c)

next_part-Follows :
    (c : Conn) (out : Bytes) (got : Partial Bytes × Conn) (k : Bytes → Conn → Result Bytes × Conn)
    → Follows c got.1
    → ((b : Bytes) → Follows got.1 (k b got.1).1)
    → Follows c (next_part out got k).1
unfolding next_part
next_part-Follows c out ((b, none), d) k h g =
    by_either (λ s. s) (length b == 0) c (ok (out ++ b), d) (k (out ++ b) d) h
      (follows.chain h (g (out ++ b)))
next_part-Follows c out ((b, some e), d) k h g =
    by_either (λ s. s) (is_eof e) c (ok (out ++ b), d) (err e, d) h h

read_all_loop-Follows :
    (fuel : ℕ) (h : LobHandle) (out : Bytes) (c : Conn) → Follows c (read_all_loop fuel h out c).1
unfolding read_all_loop
read_all_loop-Follows zero h out c = follows.stay c
read_all_loop-Follows (suc fuel) h out c =
    let size = pos_part h.size in
    let want = min (size - length out) lob_max_chunk in
    let got = read_at h want (pos (length out)) c in
    let more = λ (out' : Bytes) (c' : Conn). read_all_loop fuel h out' c' in
    by_either (λ s. s) (ltb (length out) size) c (next_part out got more) (ok out, c)
      (next_part-Follows c out got more (read_at-Follows h want (pos (length out)) c)
        (λ b. read_all_loop-Follows fuel h b got.1))
      (follows.stay c)

pub read_all-Follows : (h : LobHandle) (c : Conn) → Follows c (read_all h c).1
unfolding read_all
read_all-Follows h c = read_all_loop-Follows (pos_part h.size) h [] c

write_chunk-Follows : (h : LobHandle) (part : Bytes) (c : Conn) → Follows c (write_chunk h part c).1
unfolding write_chunk
write_chunk-Follows h part c = (Moves-request _ _).step c

append_loop-Follows :
    (fuel : ℕ) (p : Bytes) (n : ℕ) (s : Conn × Lob) → Follows s.0 (append_loop fuel p n s).1.0
unfolding append_loop
append_loop-Follows zero p n s = follows.stay s.0
append_loop-Follows (suc fuel) p n s =
    let part = take (min (length p - n) lob_max_chunk) (drop n p) in
    let wrote = write_chunk s.1.handle part s.0 in
    let grown =
      λ (rc : ℤ) (l : Lob). record l { handle = set_size (add64 l.handle.size rc) l.handle } in
    let more =
      λ (rc : ℤ) (t : Conn × Lob). append_loop fuel p (n + pos_part rc) (t.0, grown rc t.1) in
    by_either (λ t. t.0) (ltb n (length p)) s.0 (round n (wrote.0, (wrote.1, s.1)) more)
      ((n, none), s)
      (round-Follows (λ t. t.0) s.0 n wrote.0 (wrote.1, s.1) more
        (write_chunk-Follows s.1.handle part s.0)
        (λ rc. append_loop-Follows fuel p (n + pos_part rc) (wrote.1, grown rc s.1)))
      (follows.stay s.0)

pub append-Follows : (p : Bytes) (s : Conn × Lob) → Follows s.0 (append p s).1.0
unfolding append
append-Follows p s =
    by_either (λ (t : Conn × Lob). t.0) (not s.1.writable) s.0 _ _ (follows.stay s.0)
      (append_loop-Follows (length p) p 0 s)
