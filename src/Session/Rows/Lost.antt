-- ===== src/Session/Rows/Lost.antt =====
-- A connection that is lost between two blocks of a result: what `Next` gives.
use gocubrid.Prelude.{
  ◌≡◌, ◌≤◌, refl, ap, ◌∙◌, true, false, ◌||◌, List, [], ◌∷◌, ◌++◌, length, none, ltb, arith,
}
use gocubrid.Errors.{eof, read_failed}
use gocubrid.Exec.{err, continue}
use gocubrid.Bytes.{Bytes}
use gocubrid.Protocol.Codec.DateTime.{Zones}
use gocubrid.Protocol.Frame.{read_response, read_full, write_request}
use gocubrid.Session.Conn.{
  Conn, Exchange, next_exchange, later_exchanges, valid, round_trip, exchange, receive,
  request_cas_info, transport_error,
}
use gocubrid.Session.Conn.Trip.{round_trip-usable}
use gocubrid.Session.Rows.{Rows, Cursor, next, fetch_next, fetch_request, fill}

-- A usable connection whose peer closes the socket before the next response.
pub record IsLost (c : Conn) (e : Exchange) (es : List Exchange) : Type 0 where
  pub usable : valid c ≡ true
  pub scripted : c.script ≡ e ∷ es
  pub written : e.write_error ≡ none
  pub nothing : c.inbox ++ e.arrives ≡ []
  pub ended : e.stop ≡ eof
  pub alive : e.context_error ≡ none

read_response-nothing :
    (read_response (record { ready = []; stop = eof }))
    ≡ (err eof, record { ready = []; stop = eof })
unfolding read_response read_full
read_response-nothing = refl

exchange-lost :
    (e : Exchange) (frame : Bytes) (c : Conn)
    → e.write_error ≡ none
    → c.inbox ++ e.arrives ≡ []
    → e.stop ≡ eof
    → e.context_error ≡ none
    → exchange e.write_error e frame c
      ≡ (err (read_failed eof), record c { sent = c.sent ++ frame ∷ []; inbox = []; bad = true })
unfolding exchange receive
exchange-lost e frame c w n s a =
    let sent = record c { sent = c.sent ++ frame ∷ [] } in
    ap (λ t. exchange t e frame c) w
    ∙ ap (λ t. receive e sent (read_response (record { ready = t; stop = e.stop }))) n
    ∙ ap (λ t. receive e sent (read_response (record { ready = []; stop = t }))) s
    ∙ ap (receive e sent) read_response-nothing
    ∙ ap (λ t. (err (transport_error t (read_failed eof)), record sent { inbox = []; bad = true }))
        a

-- The connection after it: the request is written, and the connection is bad.
abbrev lost : Bytes → List Exchange → Conn → Conn
lost payload es c = record c {
  sent = c.sent ++ write_request payload (request_cas_info c) ∷ [];
  inbox = [];
  script = es;
  bad = true;
}

round_trip-lost :
    (payload : Bytes) (c : Conn) (e : Exchange) (es : List Exchange)
    → IsLost c e es
    → round_trip payload c ≡ (err (read_failed eof), lost payload es c)
round_trip-lost payload c e es h =
    let frame = write_request payload (request_cas_info c) in
    round_trip-usable payload c h.usable
    ∙ ap
        (λ t.
          exchange (next_exchange t).write_error (next_exchange t) frame
            (record c { script = later_exchanges t }))
        h.scripted
    ∙ exchange-lost e frame (record c { script = es }) h.written h.nothing h.ended h.alive

-- Rows with nothing left in memory and blocks still to come.
abbrev pub NeedsBlock : Rows → Type 0
NeedsBlock r = (r.closed ≡ false) × (r.fetched_all ≡ false) × (length r.tuples ≤ r.position)

fetch_next-lost :
    (z : Zones) (k : Cursor) (c : Conn) (r : Rows) (e : Exchange) (es : List Exchange)
    → IsLost c e es
    → fetch_next z k (c, r)
      ≡ (err (read_failed eof), (lost (fetch_request k r.next_index c) es c, r))
unfolding fetch_next
fetch_next-lost z k c r e es h =
    ap (λ t. continue t.0 (fill z k) (t.1, r))
      (round_trip-lost (fetch_request k r.next_index c) c e es h)

pub next-lost :
    (z : Zones) (k : Cursor) (c : Conn) (r : Rows) (e : Exchange) (es : List Exchange)
    → NeedsBlock r
    → IsLost c e es
    → next z k (c, r) ≡ (err (read_failed eof), (lost (fetch_request k r.next_index c) es c, r))
unfolding next
next-lost z k c r e es n h =
    let more : ltb r.position (length r.tuples) || r.fetched_all ≡ false = ground arith in
    simp (n.0, more, fetch_next-lost z k c r e es h)
