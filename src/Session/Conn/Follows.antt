-- ===== src/Session/Conn/Follows.antt =====
-- How a connection moves, whatever is done over it: the broker's version stays, frames are only
-- added, and a connection that is not usable stays so and writes nothing more.
use gocubrid.Prelude.{
  ◌≡◌, refl, ap, ◌∙◌, sym, Bool, true, false, ◌||◌, List, [], ◌∷◌, ◌++◌, append_assoc, append-nil,
  Option, none, some, arith, if◌then◌else◌,
}
use gocubrid.Errors.{Error, bad_conn}
use gocubrid.Exec.{Result, ok, err, lift}
use gocubrid.Exec.Moves.{Moves, IsPreorder, Moves-lift, Moves-bind}
use gocubrid.Bytes.{Bytes}
use gocubrid.Wire.Reader.{Reader, Read}
use gocubrid.Protocol.Frame.{Stream}
use gocubrid.Session.Conn.{
  Conn, Exchange, next_exchange, later_exchanges, round_trip, request, con_close_request, exchange,
  receive, valid, ping, server_version, say_goodbye, close,
}

pub record Follows (c c' : Conn) : Type 0 where
  pub same_version : c'.version ≡ c.version
  pub grows : (more : List Bytes) × (c'.sent ≡ c.sent ++ more)
  pub still : valid c ≡ false → (valid c' ≡ false) × (c'.sent ≡ c.sent)

pub follows : IsPreorder Follows
follows = record {
  stay = λ c. record {
    same_version = refl;
    grows = ([], sym (append-nil c.sent));
    still = λ h. (h, refl);
  };
  chain = λ {a} {b} {c} f g. record {
    same_version = g.same_version ∙ f.same_version;
    grows = (
      f.grows.0 ++ g.grows.0,
      g.grows.1 ∙ ap (λ t. t ++ g.grows.0) f.grows.1 ∙ append_assoc a.sent f.grows.0 g.grows.0,
    );
    still = λ h. let s = f.still h in let t = g.still s.0 in (t.0, t.1 ∙ s.1);
  };
}

-- From a usable connection, whatever only adds frames follows.
receive_version :
    (e : Exchange) (c : Conn) (got : Result (Bytes × Bytes) × Stream)
    → ((receive e c got).1.version ≡ c.version) × ((receive e c got).1.sent ≡ c.sent)
unfolding receive
receive_version e c (ok p, rest) = (refl, refl)
receive_version e c (err x, rest) = (refl, refl)

exchange_version :
    (w : Option Error) (e : Exchange) (frame : Bytes) (c : Conn)
    → ((exchange w e frame c).1.version ≡ c.version)
      × ((more : List Bytes) × ((exchange w e frame c).1.sent ≡ c.sent ++ more))
unfolding exchange
exchange_version (some x) e frame c = (refl, ([], sym (append-nil c.sent)))
exchange_version none e frame c =
    let r = receive_version e (record c { sent = c.sent ++ frame ∷ [] }) _ in
    (r.0, (frame ∷ [], r.1))

round_trip_still : (payload : Bytes) (c : Conn) → valid c ≡ false → (round_trip payload c).1 ≡ c
unfolding round_trip valid
round_trip_still payload c h = ground arith

branch :
    (b : Bool) (c : Conn) (out : Result Reader × Conn)
    → (out.1.version ≡ c.version) × ((more : List Bytes) × (out.1.sent ≡ c.sent ++ more))
    → ((if b then (err bad_conn, c) else out).1.version ≡ c.version)
      × ((more : List Bytes) × ((if b then (err bad_conn, c) else out).1.sent ≡ c.sent ++ more))
branch true c out h = (refl, ([], sym (append-nil c.sent)))
branch false c out h = h

by_bad :
    (b : Bool) (c : Conn) {x y : Conn} → Follows c x → Follows c y → Follows c (if b then x else y)
by_bad true c hx hy = hx
by_bad false c hx hy = hy

by_closed :
    (b : Bool) (c : Conn) (x y : Result (Unit {0}) × Conn)
    → Follows c x.1
    → Follows c y.1
    → Follows c (if b then x else y).1
by_closed true c x y hx hy = hx
by_closed false c x y hx hy = hy

round_trip_grows :
    (payload : Bytes) (c : Conn)
    → ((round_trip payload c).1.version ≡ c.version)
      × ((more : List Bytes) × ((round_trip payload c).1.sent ≡ c.sent ++ more))
unfolding round_trip
round_trip_grows payload c =
    let e = next_exchange c.script in
    branch (c.closed || c.bad) c _
      (exchange_version e.write_error e _ (record c { script = later_exchanges c.script }))

pub Moves-round_trip : (payload : Bytes) → Moves Follows (round_trip payload)
Moves-round_trip payload = record {
  step = λ c. record {
    same_version = (round_trip_grows payload c).0;
    grows = (round_trip_grows payload c).1;
    still = λ h. let s = round_trip_still payload c h in (ap valid s ∙ h, ap Conn.sent s);
  };
}

pub Moves-request {ℓ} :
    {A : Type ℓ} (payload : Bytes) (m : Read A) → Moves Follows (request payload m)
unfolding request
Moves-request payload m =
    Moves-bind follows (round_trip payload) (λ r. lift (m r).0) (Moves-round_trip payload)
      λ r. Moves-lift follows (m r).0

pub Moves-ping : Moves Follows ping
unfolding ping
Moves-ping = Moves-request _ _

pub Moves-server_version : Moves Follows server_version
unfolding server_version
Moves-server_version = record { step = λ c. (Moves-request _ _).step c }

say_goodbye-Follows : (c : Conn) → Follows c (say_goodbye c)
unfolding say_goodbye
say_goodbye-Follows c =
    by_bad c.bad c (follows.stay c) ((Moves-round_trip con_close_request).step c)

closing-Follows : (c : Conn) → Follows c (record c { closed = true })
closing-Follows c = record {
  same_version = refl;
  grows = ([], sym (append-nil c.sent));
  still = λ h. (unfold valid in ground arith, refl);
}

pub Moves-close : Moves Follows close
unfolding close
Moves-close = record {
  step = λ c.
      by_closed c.closed c _ _ (follows.stay c)
        (follows.chain (say_goodbye-Follows c) (closing-Follows (say_goodbye c)));
}
