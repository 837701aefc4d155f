-- ===== src/Adapter/Pool.antt =====
-- What the pool of database/sql relies on: how transactions and resets leave a connection.
use gocubrid.Prelude.{
  ℕ, zero, suc, pos, ◌≡◌, refl, ◌∙◌, Bool, true, false, ◌||◌, not, [], ◌∷◌, ◌++◌, Option, none,
  some, if◌then◌else◌, arith,
}
use gocubrid.Errors.{Error, driver_bad_conn}
use gocubrid.Exec.{Result, ok, err, is_ok, continue, lift}
use gocubrid.Exec.Moves.{Moves, IsPreorder, Moves-bind, Moves-lift}
use gocubrid.Bytes.{Bytes}
use gocubrid.Wire.Reader.{Read}
use gocubrid.Protocol.Frame.{Stream}
use gocubrid.Session.Conn.{
  Exchange, exchange, receive, later_exchanges, Conn, valid, request, round_trip,
}
use gocubrid.Session.Tx.{
  set_isolation_level, level_in_range, set_auto_commit, rollback, send_for_status,
}
use gocubrid.Adapter.{
  reset_session, after_rollback, begin_tx, begin_at, set_level, Level, native_isolation,
}

after_rollback-result :
    (out : Result (Unit {0}) × Conn)
    → (is_ok (after_rollback out).0 ≡ true → (after_rollback out).1.auto_commit ≡ true)
      × ((e : Error) → (after_rollback out).0 ≡ err e → e ≡ driver_bad_conn)
unfolding after_rollback
after_rollback-result (ok u, c) = (λ h. refl, λ e h. cc)
after_rollback-result (err x, c) = (λ h. cc, λ e h. cc)

if-result :
    (b : Bool) (x y : Result (Unit {0}) × Conn) (P : Result (Unit {0}) × Conn → Type 0)
    → (b ≡ true → P x)
    → (b ≡ false → P y)
    → P (if b then x else y)
if-result true x y P hx hy = hx refl
if-result false x y P hx hy = hy refl

-- What the pool may conclude from a reset.
abbrev pub IsReset : Result (Unit {0}) × Conn → Type 0
IsReset out =
    (is_ok out.0 ≡ true → out.1.auto_commit ≡ true)
    × ((e : Error) → out.0 ≡ err e → e ≡ driver_bad_conn)

-- A connection that the pool gets back is in autocommit mode if its reset succeeds, and the only
-- error of a reset is the one on which the pool drops the connection.
pub reset_session-IsReset : (c : Conn) → IsReset (reset_session c)
unfolding reset_session
reset_session-IsReset c =
    if-result (not (valid c)) _ _ IsReset (λ h. (λ k. cc, λ e k. cc))
      (λ h.
        if-result (not c.auto_commit) _ _ IsReset (λ k. after_rollback-result (rollback c))
          (λ k. (λ l. ground arith, λ e l. cc)))

-- The autocommit flag, which no exchange with the broker touches.
abbrev SameMode : Conn → Conn → Type 0
SameMode c c' = c'.auto_commit ≡ c.auto_commit

same_mode : IsPreorder SameMode
same_mode = record { stay = λ c. refl; chain = λ f g. g ∙ f }

receive-mode :
    (e : Exchange) (c : Conn) (got : Result (Bytes × Bytes) × Stream)
    → SameMode c (receive e c got).1
unfolding receive
receive-mode e c (ok p, rest) = refl
receive-mode e c (err x, rest) = refl

exchange-mode :
    (w : Option Error) (e : Exchange) (frame : Bytes) (c : Conn)
    → SameMode c (exchange w e frame c).1
unfolding exchange
exchange-mode (some x) e frame c = refl
exchange-mode none e frame c = receive-mode e (record c { sent = c.sent ++ frame ∷ [] }) _

if-mode :
    {A : Type 0} (b : Bool) (c : Conn) (x y : Result A × Conn)
    → SameMode c x.1
    → SameMode c y.1
    → SameMode c (if b then x else y).1
if-mode true c x y hx hy = hx
if-mode false c x y hx hy = hy

round_trip-mode : (payload : Bytes) → Moves SameMode (round_trip payload)
unfolding round_trip
round_trip-mode payload = record {
  step = λ c.
      if-mode (c.closed || c.bad) c _ _ refl
        (exchange-mode _ _ _ (record c { script = later_exchanges c.script }));
}

request-mode : {A : Type 0} (payload : Bytes) (m : Read A) → Moves SameMode (request payload m)
unfolding request
request-mode payload m =
    Moves-bind same_mode (round_trip payload) (λ r. lift (m r).0) (round_trip-mode payload)
      λ r. Moves-lift same_mode (m r).0

set_level-mode : (n : ℕ) (c : Conn) → SameMode c (set_level n c).1
unfolding set_level set_isolation_level send_for_status
set_level-mode zero c = refl
set_level-mode (suc n) c =
    if-mode (level_in_range c.version (pos (suc n))) c _ _ ((request-mode _ _).step c) refl

-- What a client may conclude from `BeginTx`.
abbrev pub HasBegun : Conn → Result (Unit {0}) × Conn → Type 0
HasBegun c out =
    (is_ok out.0 ≡ true → out.1.auto_commit ≡ false)
    × (is_ok out.0 ≡ false → out.1.auto_commit ≡ c.auto_commit)

begin_after :
    (c : Conn) (out : Result (Unit {0}) × Conn)
    → SameMode c out.1
    → HasBegun c (continue out.0 (λ _. set_auto_commit false) out.1)
unfolding set_auto_commit
begin_after c (ok u, s) h = (λ k. refl, λ k. cc)
begin_after c (err e, s) h = (λ k. cc, λ k. h)

begin_at-HasBegun : (lv : Level) (n : Option ℕ) (c : Conn) → HasBegun c (begin_at lv n c)
unfolding begin_at
begin_at-HasBegun lv none c = (λ k. cc, λ k. refl)
begin_at-HasBegun lv (some n) c = begin_after c (set_level n c) (set_level-mode n c)

-- A transaction that begins has turned autocommit off; one that fails to begin (read-only, an
-- unsupported level, or an error of the broker) leaves the mode as it was.
pub begin_tx-HasBegun :
    (read_only : Bool) (lv : Level) (c : Conn) → HasBegun c (begin_tx read_only lv c)
unfolding begin_tx
begin_tx-HasBegun read_only lv c =
    if-result read_only _ _ (HasBegun c) (λ h. (λ k. cc, λ k. refl))
      (λ h. begin_at-HasBegun lv (native_isolation lv) c)
