-- ===== src/Session/Conn/Arrivals.antt =====
-- What a round trip takes off the socket: the eight bytes of a header and the response.
use gocubrid.Prelude.{
  ℕ, ◌+◌, ◌≤◌, ◌≡◌, refl, ap, sym, ◌∙◌, ◌||◌, List, [], ◌∷◌, ◌++◌, length, length-append,
  length-take, length-drop, take, drop, ltb, Option, none, some, if◌then◌else◌, arith,
}
use gocubrid.Errors.{Error, bad_conn, payload_too_long}
use gocubrid.Exec.{Result, ok, err, Exec, pure, raise, ◌>>=◌, >>=-ok, unless-ok, unless-run_ok}
use gocubrid.Exec.Returns.{ok-injective}
use gocubrid.Bytes.{Bytes, be_uint}
use gocubrid.Wire.Reader.{Reader, remaining}
use gocubrid.Protocol.Codes.{max_payload_size}
use gocubrid.Protocol.Frame.{Stream, read_full, read_response, write_request}
use gocubrid.Session.Conn.{
  Conn, Exchange, next_exchange, later_exchanges, receive, exchange, round_trip, request_cas_info,
}

-- The bytes that a socket will still give.
abbrev pub to_arrive : List Exchange → ℕ
to_arrive [] = 0
to_arrive (e ∷ es) = length e.arrives + to_arrive es

abbrev pub arrivals : Conn → ℕ
arrivals c = length c.inbox + to_arrive c.script

read_full-length :
    (n : ℕ) (s : Stream) (b : Bytes)
    → (read_full n s).0 ≡ ok b
    → (length b ≡ n) × (length (read_full n s).1.ready + n ≤ length s.ready)
unfolding read_full
read_full-length n s b h = ground (arith, length-take n s.ready, length-drop n s.ready)

-- The payload, after the header was read.
abbrev payload_of : Bytes → Exec Stream (Bytes × Bytes)
payload_of header =
    let n = be_uint (take 4 header) in
    if ltb max_payload_size n
    then raise (payload_too_long n)
    else (do payload ← read_full n; pure (payload, take 4 (drop 4 header)))

abbrev rest_of : Bytes → Bytes → Exec Stream (Bytes × Bytes)
rest_of header payload = pure (payload, take 4 (drop 4 header))

length-payload_of :
    (header : Bytes) (s : Stream) (p : Bytes × Bytes)
    → (payload_of header s).0 ≡ ok p
    → length (payload_of header s).1.ready + length p.0 ≤ length s.ready
length-payload_of header s p h =
    let n = be_uint (take 4 header) in
    let body : Exec Stream (Bytes × Bytes) = read_full n >>= rest_of header in
    let same = unless-ok (ltb max_payload_size n) (payload_too_long n) body s p h in
    let (b, got, run) = >>=-ok (read_full n) (rest_of header) s p (ap (λ t. t.0) (sym same) ∙ h) in
    let size = read_full-length n s b got in
    let whole = ap (λ t. t.0) (sym (same ∙ run)) ∙ h in
    let place = ap (λ t. length t.1.ready) (same ∙ run) in
    let p_is_b : p.0 ≡ b = ap (λ t. t.0) (sym (ok-injective whole)) in
    omega (arith, place, size.0, size.1, ap length p_is_b)

length-read_response :
    (s : Stream) (p : Bytes × Bytes)
    → (read_response s).0 ≡ ok p
    → length (read_response s).1.ready + length p.0 + 8 ≤ length s.ready
unfolding read_response
length-read_response s p h =
    let (header, got, run) = >>=-ok (read_full 8) payload_of s p h in
    let size = read_full-length 8 s header got in
    let more = length-payload_of header (read_full 8 s).1 p (ap (λ t. t.0) (sym run) ∙ h) in
    omega (arith, size.1, more, ap (λ t. length t.1.ready) run)

length-receive :
    (n : ℕ) (e : Exchange) (c : Conn) (got : Result (Bytes × Bytes) × Stream) (rd : Reader)
    → ((p : Bytes × Bytes) → got.0 ≡ ok p → length got.1.ready + length p.0 + 8 ≤ n)
    → (receive e c got).0 ≡ ok rd
    → length (receive e c got).1.inbox + remaining rd + 8 ≤ n
unfolding receive remaining
length-receive n e c (ok p, rest) rd small h =
    omega (arith, small p refl, ap remaining (ok-injective h))
length-receive n e c (err x, rest) rd small h = absurd (cc)

receive_script :
    (e : Exchange) (c : Conn) (got : Result (Bytes × Bytes) × Stream)
    → (receive e c got).1.script ≡ c.script
unfolding receive
receive_script e c (ok p, rest) = refl
receive_script e c (err x, rest) = refl

arrivals-exchange :
    (w : Option Error) (e : Exchange) (frame : Bytes) (c : Conn) (rd : Reader)
    → (exchange w e frame c).0 ≡ ok rd
    → arrivals (exchange w e frame c).1 + remaining rd + 8 ≤ arrivals c + length e.arrives
unfolding exchange
arrivals-exchange (some x) e frame c rd h = absurd (cc)
arrivals-exchange none e frame c rd h =
    let s : Stream = record { ready = c.inbox ++ e.arrives; stop = e.stop } in
    let c' = record c { sent = c.sent ++ frame ∷ [] } in
    let size =
      length-receive (length s.ready) e c' (read_response s) rd (length-read_response s) h in
    let same = receive_script e c' (read_response s) in
    omega (arith, size, ap to_arrive same, length-append c.inbox e.arrives)

to_arrive_next :
    (es : List Exchange)
    → length (next_exchange es).arrives + to_arrive (later_exchanges es) ≡ to_arrive es
to_arrive_next [] = refl
to_arrive_next (e ∷ es) = refl

-- A round trip that succeeds has taken its response, and the eight bytes of its header, off what
-- the socket was to give.
pub arrivals-round_trip :
    (payload : Bytes) (c : Conn) (rd : Reader)
    → (round_trip payload c).0 ≡ ok rd
    → arrivals (round_trip payload c).1 + remaining rd + 8 ≤ arrivals c
unfolding round_trip
arrivals-round_trip payload c rd h =
    let e = next_exchange c.script in
    let frame = write_request payload (request_cas_info c) in
    let c' = record c { script = later_exchanges c.script } in
    let trip = exchange e.write_error e frame c' in
    let same = unless-run_ok (c.closed || c.bad) bad_conn c trip rd h in
    let size = arrivals-exchange e.write_error e frame c' rd (ap (λ t. t.0) (sym same) ∙ h) in
    omega (arith, size, ap (λ t. arrivals t.1) same, to_arrive_next c.script)
