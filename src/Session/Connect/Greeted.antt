-- ===== src/Session/Connect/Greeted.antt =====
-- A handshake with a broker that lets the client in.
use gocubrid.Prelude.{
  suc, ℤ, pos, ◌^◌, ◌≤◌, ◌≡◌, refl, ap, ◌∙◌, Bool, false, List, [], ◌∷◌, ◌++◌, none, length,
  of_word,
}
use gocubrid.Errors.{Error, dial_failed}
use gocubrid.Exec.{Result, ok, err, pure, wrap_error, continue}
use gocubrid.Bytes.{Bytes, be_uint}
use gocubrid.Protocol.Codes.{max_payload_size}
use gocubrid.Protocol.Frame.{read_response, write_request}
use gocubrid.Protocol.Frame.RoundTrip.{read_response-write_request, read_full-append}
use gocubrid.Protocol.Handshake.{ConnectReply, greeting, db_info, parse_connect_reply}
use gocubrid.Config.{Config}
use gocubrid.Session.Conn.{Conn}
use gocubrid.Session.Connect.{
  Socket, Net, Link, Dial, address, next_dial, later_dials, opened, dial, write_bytes, read_link,
  read_port, follow_port, upgrade, conn_url, authenticate, handshake, new_conn, settle,
  connect_host,
}

-- A socket on which the broker passes the client on without a redirect and then lets it in.
pub record LetsIn (s : Socket) (reply later : Bytes) (rep : ConnectReply) : Type 0 where
  pub cas_info : Bytes
  pub greets : s.greeting_error ≡ none
  pub authenticates : s.auth_error ≡ none
  pub arrived : s.arrives ≡ 0 ∷ 0 ∷ 0 ∷ 0 ∷ write_request reply cas_info ++ later
  pub four : length cas_info ≡ 4
  pub small : length reply ≤ max_payload_size
  pub parses : parse_connect_reply reply ≡ ok rep

-- After the handshake: both messages were written, and what came after the reply is left.
abbrev pub shaken : Bytes → Bytes → Bytes → Link → Link
shaken hello block later l = record l {
  socket = record (l.socket) { arrives = later };
  written = (l.written ++ hello ∷ []) ++ block ∷ [];
}

read_port-zero :
    (stop : Error) (rest : Bytes)
    → read_port (record { ready = 0 ∷ 0 ∷ 0 ∷ 0 ∷ rest; stop = stop })
      ≡ (ok (pos 0), record { ready = rest; stop = stop })
unfolding read_port be_uint of_word
read_port-zero stop rest =
    ap (λ t. continue t.0 (λ b. pure (of_word (2 ^ 31) (be_uint b))) t.1)
      (read_full-append (0 ∷ 0 ∷ 0 ∷ 0 ∷ []) rest stop)

authenticate-LetsIn :
    (cfg : Config) (host : Bytes) (port : ℤ) (n : Net) (l : Link)
    (block reply cas_info later : Bytes) (rep : ConnectReply)
    → l.socket.auth_error ≡ none
    → db_info cfg.database cfg.user cfg.password (conn_url cfg host port) none ≡ ok block
    → l.socket.arrives ≡ write_request reply cas_info ++ later
    → length cas_info ≡ 4
    → length reply ≤ max_payload_size
    → parse_connect_reply reply ≡ ok rep
    → authenticate cfg host port (n, l) ≡ (
      ok rep,
      (
        n,
        record l {
          socket = record (l.socket) { arrives = later };
          written = l.written ++ block ∷ [];
        },
      ),
    )
unfolding authenticate write_bytes read_link
authenticate-LetsIn cfg host port n l block reply cas_info later rep w b a four small p =
    let got =
      ap (λ t. read_response (record { ready = t; stop = l.socket.stop })) a
      ∙ read_response-write_request reply cas_info later l.socket.stop four small in
    simp (b, w, got, p)

handshake-LetsIn :
    (tls : Socket → Result Socket) (cfg : Config) (host : Bytes) (port : ℤ) (n : Net) (l : Link)
    (block reply later : Bytes) (rep : ConnectReply)
    → cfg.ssl ≡ false
    → db_info cfg.database cfg.user cfg.password (conn_url cfg host port) none ≡ ok block
    → LetsIn l.socket reply later rep
    → handshake tls cfg host port (n, l) ≡ (ok rep, (n, shaken (greeting cfg.ssl) block later l))
unfolding handshake write_bytes read_link follow_port upgrade
handshake-LetsIn tls cfg host port n l block reply later rep plain b h =
    let stop = l.socket.stop in
    let rest = write_request reply h.cas_info ++ later in
    let cas =
      ap (λ t. read_port (record { ready = t; stop = stop })) h.arrived
      ∙ read_port-zero stop rest in
    let l' : Link = record l {
      socket = record (l.socket) { greeting_error = none; arrives = rest };
      written = l.written ++ greeting false ∷ [];
    } in
    simp (h.greets, cas, plain)
      (authenticate-LetsIn cfg host port n l' block reply h.cas_info later rep h.authenticates b
        refl h.four h.small h.parses)

-- What `connectHost` makes of the dials to come.
abbrev dialed_as :
    (Socket → Result Socket) → Config → Bytes → ℤ → Net → List Dial → Result Conn × Net
dialed_as tls cfg host port n ds =
    let d = next_dial ds in
    let got = opened d.outcome (record n {
      dials = later_dials ds;
      dialed = n.dialed ++ address host port ∷ [];
      dead = d.dead;
    }) in
    elim (wrap_error (dial_failed (address host port)) got.0) [
      | ok l ↦ settle cfg (handshake tls cfg host port (got.1, l))
      | err x ↦ (err x, got.1)
    ]

-- When a dial gives a socket on which the broker answers the greeting with 0 and the auth block with
-- a reply, `connectHost` without TLS gives a connection of the reply's version, for which everything
-- that follows the reply is still to be read, and whose socket is the one newly opened.
pub connect_host-LetsIn :
    (tls : Socket → Result Socket) (cfg : Config) (host : Bytes) (port : ℤ) (n : Net) (s : Socket)
    (dead : Bool) (ds : List Dial) (block reply later : Bytes) (rep : ConnectReply)
    → n.dials ≡ record { outcome = ok s; dead = dead } ∷ ds
    → cfg.ssl ≡ false
    → db_info cfg.database cfg.user cfg.password (conn_url cfg host port) none ≡ ok block
    → LetsIn s reply later rep
    → let l : Link = record { id = n.next_id; socket = s; written = [] } in
      connect_host tls cfg (host, port) n ≡ (
        ok (new_conn cfg rep (shaken (greeting cfg.ssl) block later l)),
        record n {
          dials = ds;
          dialed = n.dialed ++ address host port ∷ [];
          dead = dead;
          live = n.next_id ∷ n.live;
          next_id = suc n.next_id;
        },
      )
unfolding connect_host dial
connect_host-LetsIn tls cfg host port n s dead ds block reply later rep e plain b h =
    let l : Link = record { id = n.next_id; socket = s; written = [] } in
    let m : Net = record n {
      dials = ds;
      dialed = n.dialed ++ address host port ∷ [];
      dead = dead;
      live = n.next_id ∷ n.live;
      next_id = suc n.next_id;
    } in
    ap (λ t. dialed_as tls cfg host port n t) e
    ∙ ap (settle cfg) (handshake-LetsIn tls cfg host port m l block reply later rep plain b h)
    ∙ unfold settle in refl
