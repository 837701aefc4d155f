-- ===== src/Session/Conn/Trip.antt =====
-- One round trip: what it gives when the peer answers, and when a connection survives it.
use gocubrid.Prelude.{
  ◌≤◌, ◌≡◌, refl, ap, ◌∙◌, sym, true, List, [], ◌∷◌, ◌++◌, length, Option, none, some, arith,
}
use gocubrid.Errors.{Error}
use gocubrid.Exec.{Result, ok, err, is_ok, continue, lift}
use gocubrid.Bytes.{Bytes}
use gocubrid.Wire.Reader.{Read, new_reader}
use gocubrid.Protocol.Codes.{max_payload_size}
use gocubrid.Protocol.Frame.{Stream, write_request, read_response}
use gocubrid.Protocol.Frame.RoundTrip.{read_response-write_request}
use gocubrid.Session.Conn.{
  Conn, Exchange, next_exchange, later_exchanges, round_trip, exchange, receive, valid, request,
  request_cas_info,
}

receive-valid :
    (e : Exchange) (c : Conn) (got : Result (Bytes × Bytes) × Stream)
    → valid c ≡ true
    → is_ok (receive e c got).0 ≡ valid (receive e c got).1
unfolding receive valid
receive-valid e c (ok p, rest) h = sym h
receive-valid e c (err x, rest) h = refl

exchange-valid :
    (w : Option Error) (e : Exchange) (frame : Bytes) (c : Conn)
    → valid c ≡ true
    → is_ok (exchange w e frame c).0 ≡ valid (exchange w e frame c).1
unfolding exchange valid
exchange-valid (some w) e frame c h = refl
exchange-valid none e frame c h = unfold valid in receive-valid e _ _ h

-- A round trip succeeds exactly if the connection is usable after it: every failure leaves it
-- poisoned or finds it so, and no success does.
pub round_trip-valid :
    (payload : Bytes) (c : Conn) → is_ok (round_trip payload c).0 ≡ valid (round_trip payload c).1
unfolding round_trip valid
round_trip-valid payload c =
    let e = next_exchange c.script in
    ground (
      arith,
      exchange-valid e.write_error e (write_request payload (request_cas_info c))
          (record c { script = later_exchanges c.script }),
    )

-- On a usable connection a round trip is the exchange of its frame.
pub round_trip-usable :
    (payload : Bytes) (c : Conn)
    → valid c ≡ true
    → round_trip payload c
      ≡ exchange
          (next_exchange c.script).write_error
          (next_exchange c.script)
          (write_request payload (request_cas_info c))
          (record c { script = later_exchanges c.script })
unfolding round_trip valid
round_trip-usable payload c h = ground arith

exchange-answered :
    (e : Exchange) (frame resp cas_info later : Bytes) (c : Conn)
    → e.write_error ≡ none
    → c.inbox ++ e.arrives ≡ write_request resp cas_info ++ later
    → length cas_info ≡ 4
    → length resp ≤ max_payload_size
    → exchange e.write_error e frame c
      ≡ (ok (new_reader resp), record c { sent = c.sent ++ frame ∷ []; inbox = later })
exchange-answered e frame resp cas_info later c w a four small =
    ap (λ t. exchange t e frame c) w
    ∙ unfold exchange in
      ap
        (λ t.
          receive e (record c { sent = c.sent ++ frame ∷ [] })
            (read_response (record { ready = t; stop = e.stop })))
        a
      ∙ ap (receive e (record c { sent = c.sent ++ frame ∷ [] }))
          (read_response-write_request resp cas_info later e.stop four small)
      ∙ unfold receive in refl

-- On a usable connection, when the write succeeds and the bytes that arrive begin with the frame of
-- a response of at most the maximal size, a round trip returns a reader over that response, has
-- written one frame that carries the payload and the autocommit flag, and keeps what came after
-- the response for the next one.
pub round_trip-answered :
    (payload resp cas_info later : Bytes) (c : Conn) (e : Exchange) (es : List Exchange)
    → valid c ≡ true
    → c.script ≡ e ∷ es
    → e.write_error ≡ none
    → c.inbox ++ e.arrives ≡ write_request resp cas_info ++ later
    → length cas_info ≡ 4
    → length resp ≤ max_payload_size
    → round_trip payload c ≡ (
      ok (new_reader resp),
      record c {
        sent = c.sent ++ write_request payload (request_cas_info c) ∷ [];
        inbox = later;
        script = es;
      },
    )
round_trip-answered payload resp cas_info later c e es h s w a four small =
    let frame = write_request payload (request_cas_info c) in
    round_trip-usable payload c h
    ∙ ap
        (λ t.
          exchange (next_exchange t).write_error (next_exchange t) frame
            (record c { script = later_exchanges t }))
        s
    ∙ exchange-answered e frame resp cas_info later (record c { script = es }) w a four small

-- What arrives for the next exchange is the response `resp`, followed by `later`.
pub record Answers (c : Conn) (resp later : Bytes) (es : List Exchange) : Type 0 where
  pub exchange_now : Exchange
  pub cas_info : Bytes
  pub usable : valid c ≡ true
  pub scripted : c.script ≡ exchange_now ∷ es
  pub written : exchange_now.write_error ≡ none
  pub arrived : c.inbox ++ exchange_now.arrives ≡ write_request resp cas_info ++ later
  pub four : length cas_info ≡ 4
  pub small : length resp ≤ max_payload_size

-- The connection after it.
abbrev pub answered : Bytes → Bytes → List Exchange → Conn → Conn
answered payload later es c = record c {
  sent = c.sent ++ write_request payload (request_cas_info c) ∷ [];
  inbox = later;
  script = es;
}

-- A request that is answered gives what its parser makes of the response, an error of the server
-- included, and the connection has written one frame, is as usable as before, and keeps what came
-- after the response.
pub request-answered {ℓ} :
    {A : Type ℓ} (payload : Bytes) (m : Read A) (resp later : Bytes) (c : Conn) (es : List Exchange)
    → Answers c resp later es
    → (request payload m c ≡ ((m (new_reader resp)).0, answered payload later es c))
      × (valid (answered payload later es c) ≡ true)
unfolding request valid
request-answered payload m resp later c es h = (
  ap (λ t. continue t.0 (λ r. lift (m r).0) t.1)
      (round_trip-answered payload resp h.cas_info later c h.exchange_now es h.usable h.scripted
        h.written h.arrived h.four h.small),
  h.usable,
)
