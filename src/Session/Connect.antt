-- ===== src/Session/Connect.antt =====
-- `Connect`, `connectHost` and the handshake of cubrid/conn.go. What the network gives is a script:
-- the outcome of each dial, and for each socket its writes, the bytes that arrive, and the exchanges
-- that follow the handshake. `crypto/tls` is a parameter, and timeouts only show in the script.
pub mod Sockets
pub mod Accounts
pub mod Greeted
use gocubrid.Prelude.{
  ℕ, suc, ℤ, pos, negsuc, ◌+◌, ◌^◌, Bool, true, false, List, [], ◌∷◌, ◌++◌, length, Option, none,
  some, codes, is_neg, pos_part, neg_part, of_word, ◌==◌, not, if◌then◌else◌,
}
use gocubrid.Errors.{
  Error, server, socket, dial_failed, host_failed, greeting_failed, greeting_reply_failed,
  redirect_failed, tls_failed, auth_failed, auth_reply_failed,
}
use gocubrid.Exec.{Result, ok, err, Exec, pure, raise, lift, wrap, gets, bind, ◌>>=◌, ◌>>◌}
use gocubrid.Bytes.{Bytes, be_uint}
use gocubrid.Protocol.Codes.{Version}
use gocubrid.Protocol.Frame.{Stream, read_full, read_response}
use gocubrid.Protocol.Handshake.{ConnectReply, greeting, db_info, parse_connect_reply}
use gocubrid.Config.{Config}
use gocubrid.Config.Hosts.{join_host_port, split_alt_host, itoa_ℤ}
use gocubrid.Session.Conn.{Conn, Exchange}
use gocubrid.Session.Failover.{Swept, connected, sweep}

pub record Socket : Type 0 where
  pub greeting_error : Option Error
  pub auth_error : Option Error
  pub arrives : Bytes
  pub stop : Error
  pub exchanges : List Exchange
  pub close_error : Option Error

-- The outcome of a dial, and whether the caller's context is dead after it.
pub record Dial : Type 0 where
  pub outcome : Result Socket
  pub dead : Bool

-- The dials to come, the sockets that are open, the next socket's number, the addresses dialed, and
-- whether the caller's context is dead.
pub record Net : Type 0 where
  pub dials : List Dial
  pub live : List ℕ
  pub next_id : ℕ
  pub dialed : List Bytes
  pub dead : Bool

-- `c.nc` and `c.br`: the socket in use, and what was written to it.
pub record Link : Type 0 where
  pub id : ℕ
  pub socket : Socket
  pub written : List Bytes

abbrev pub Shaking {ℓ} : Type ℓ → Type ℓ
Shaking A = Exec (Net × Link) A

unfoldable pub address : Bytes → ℤ → Bytes
address host port = join_host_port host (itoa_ℤ port)

unfoldable pub remove_id : ℕ → List ℕ → List ℕ
remove_id i [] = []
remove_id i (j ∷ js) = let rest = remove_id i js in if j == i then rest else j ∷ rest

-- `nc.Close()`: a second call does nothing.
unfoldable pub close_id : ℕ → Net → Net
close_id i n = record n { live = remove_id i n.live }

-- Past the script no host answers.
abbrev pub next_dial : List Dial → Dial
next_dial [] = record { outcome = err (socket 0); dead = false }
next_dial (d ∷ ds) = d

abbrev pub later_dials : List Dial → List Dial
later_dials [] = []
later_dials (d ∷ ds) = ds

abbrev pub opened : Result Socket → Net → Result Link × Net
opened (err e) n = (err e, n)
opened (ok s) n = (
  ok (record { id = n.next_id; socket = s; written = [] }),
  record n { live = n.next_id ∷ n.live; next_id = suc n.next_id },
)

-- `d.DialContext(ctx, "tcp", addr)`
unfoldable pub dial : Bytes → Exec Net Link
dial addr n =
    let d = next_dial n.dials in
    opened d.outcome
      (record n { dials = later_dials n.dials; dialed = n.dialed ++ addr ∷ []; dead = d.dead })

-- A write, which fails or is kept.
unfoldable pub write_bytes : Option Error → (Error → Error) → Bytes → Shaking (Unit {0})
write_bytes (some e) f b s = (err (f e), s)
write_bytes none f b s = (ok tt, (s.0, record s.1 { written = s.1.written ++ b ∷ [] }))

-- A read from `c.br`.
unfoldable pub read_link {ℓ} : {A : Type ℓ} → Exec Stream A → Shaking A
read_link m (n, l) =
    let out = m (record { ready = l.socket.arrives; stop = l.socket.stop }) in
    (out.0, (n, record l { socket = record (l.socket) { arrives = out.1.ready } }))

-- `binary.Read` of an int32.
unfoldable pub read_port : Exec Stream ℤ
read_port = do b ← read_full 4; pure (of_word (2 ^ 31) (be_uint b))

-- -10103 is `CASErrSSLTypeNotAllowed`.
unfoldable pub rejection : ℤ → Error
rejection port = server port (
    if neg_part port == 10103
    then codes
        "broker rejected the connection's SSL mode (ssl=true against an SSL=OFF broker, or plaintext against SSL=ON)"
    else codes "broker rejected connection")

-- A redirect closes the socket and dials the port of the CAS.
unfoldable pub redial : Bytes → ℤ → Shaking (Unit {0})
redial host port (n, l) =
    let out = wrap redirect_failed (dial (address host port)) (close_id l.id n) in
    elim out.0 [ ok l' ↦ (ok tt, (out.1, l')) | err e ↦ (err e, (out.1, l)) ]

unfoldable pub follow_port : Bytes → ℤ → Shaking (Unit {0})
follow_port host port =
    if is_neg port
    then raise (rejection port)
    else if pos_part port == 0
    then pure tt
    else redial host port

module _ (tls : Socket → Result Socket) where
  -- The TLS upgrade of the socket.
  unfoldable pub secure : Shaking (Unit {0})
  secure (n, l) = elim (tls l.socket) [
    | ok s ↦ (ok tt, (n, record l { socket = s }))
    | err e ↦ (err (tls_failed e), (n, l))
  ]

  unfoldable pub upgrade : Bool → Shaking (Unit {0})
  upgrade ssl = if ssl then secure else pure tt

-- `cubrid://user@host:port/database`
unfoldable pub conn_url : Config → Bytes → ℤ → Bytes
conn_url cfg host port =
    codes "cubrid://" ++ cfg.user ++ b'@' ∷ host ++ b':' ∷ itoa_ℤ port ++ b'/' ∷ cfg.database

-- The auth block and its reply.
unfoldable pub authenticate : Config → Bytes → ℤ → Shaking ConnectReply
authenticate cfg host port = do
  db ← lift (db_info cfg.database cfg.user cfg.password (conn_url cfg host port) none)
  e ← gets (λ s. s.1.socket.auth_error)
  write_bytes e auth_failed db
  reply ← wrap auth_reply_failed (read_link read_response)
  lift (parse_connect_reply reply.0)

unfoldable pub handshake : (Socket → Result Socket) → Config → Bytes → ℤ → Shaking ConnectReply
handshake tls cfg host port = do
  e ← gets (λ s. s.1.socket.greeting_error)
  write_bytes e greeting_failed (greeting cfg.ssl)
  cas ← wrap greeting_reply_failed (read_link read_port)
  follow_port host cas
  upgrade tls cfg.ssl
  authenticate cfg host port

-- The connection after the handshake.
unfoldable pub new_conn : Config → ConnectReply → Link → Conn
new_conn cfg rep l = record {
  fetch_size = cfg.fetch_size;
  version = rep.version;
  auto_commit = true;
  bad = false;
  closed = false;
  sent = [];
  inbox = l.socket.arrives;
  script = l.socket.exchanges;
  close_error = l.socket.close_error;
}

-- `if err := c.handshake(ctx); err != nil { c.nc.Close(); return nil, err }`
unfoldable pub settle : Config → Result ConnectReply × (Net × Link) → Result Conn × Net
settle cfg (err e, (n, l)) = (err e, close_id l.id n)
settle cfg (ok rep, (n, l)) = (ok (new_conn cfg rep l), n)

unfoldable pub connect_host : (Socket → Result Socket) → Config → Bytes × ℤ → Exec Net Conn
connect_host tls cfg (host, port) n =
    let addr = address host port in
    let out = wrap (dial_failed addr) (dial addr) n in
    elim out.0 [
      | ok l ↦ settle cfg (handshake tls cfg host port (out.1, l))
      | err e ↦ (err e, out.1)
    ]

-- The alternative hosts of the sweep.
unfoldable pub alt_targets : List Bytes → Result (List (Bytes × ℤ))
alt_targets [] = ok []
alt_targets (alt ∷ alts) =
    bind (split_alt_host alt) (λ r. bind (alt_targets alts) (λ rest. ok ((r.0, pos r.1) ∷ rest)))

-- One attempt of the sweep: its error names the host.
unfoldable pub attempt_host : (Socket → Result Socket) → Config → Bytes × ℤ → Exec Net Conn
attempt_host tls cfg t = wrap (host_failed (address t.0 t.1)) (connect_host tls cfg t)

abbrev pub sweep_all :
    (Socket → Result Socket) → Config → Result (List (Bytes × ℤ)) → Exec Net (Swept Conn)
sweep_all tls cfg (err e) n = (err e, n)
sweep_all tls cfg (ok alts) n =
    let out = sweep (attempt_host tls cfg) (λ m. m.dead) ((cfg.host, cfg.port) ∷ alts) [] n in
    (ok out.0, out.1)

-- `Connect`
unfoldable pub connect : (Socket → Result Socket) → Config → Exec Net (Swept Conn)
connect tls cfg =
    if length cfg.alt_hosts == 0
    then (do c ← connect_host tls cfg (cfg.host, cfg.port); pure (connected c))
    else sweep_all tls cfg (alt_targets cfg.alt_hosts)
