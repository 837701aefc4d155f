-- ===== src/Session/Conn.antt =====
-- cubrid/conn.go: a connection and its round trips. The socket is a script: for each request, what
-- the write and the reads give. The deadlines of `guard` only show in the script.
pub mod Trip
pub mod Follows
pub mod Arrivals
use gocubrid.Prelude.{
  ℕ, ℤ, pos, Bool, true, false, ◌&&◌, ◌||◌, not, List, [], ◌∷◌, ◌++◌, Option, none, some, ◌==◌,
  if◌then◌else◌,
}
use gocubrid.Errors.{Error, bad_conn, eof, write_failed, read_failed}
use gocubrid.Exec.{Result, ok, err, Exec, pure, raise, lift, gets, ◌>>=◌, ◌>>◌}
use gocubrid.Bytes.{Bytes}
use gocubrid.Wire.Writer.{Writer, ◌▹◌, new_writer, raw_byte, arg_byte}
use gocubrid.Wire.Reader.{Reader, Read, new_reader, remaining, bytes}
use gocubrid.Protocol.Codes.{Version}
use gocubrid.Protocol.Codes.Functions
use gocubrid.Protocol.Frame.{Stream, write_request, read_response}
use gocubrid.Protocol.Text.{trim_nul}
use gocubrid.Protocol.Status.{read_status}

-- One exchange: the error of the write, the bytes that arrive after it, what a read past them
-- gives, and `ctx.Err()` when the exchange ends.
pub record Exchange : Type 0 where
  pub write_error : Option Error
  pub arrives : Bytes
  pub stop : Error
  pub context_error : Option Error

-- `Conn`: the fields that the operations read, the frames written so far, the bytes that were
-- received and not yet read, the exchanges to come, and what closing the socket gives.
pub record Conn : Type 0 where
  pub fetch_size : ℤ
  pub version : Version
  pub auto_commit : Bool
  pub bad : Bool
  pub closed : Bool
  pub sent : List Bytes
  pub inbox : Bytes
  pub script : List Exchange
  pub close_error : Option Error

-- Past the script the peer is gone.
abbrev pub next_exchange : List Exchange → Exchange
next_exchange [] = record { write_error = none; arrives = []; stop = eof; context_error = none }
next_exchange (e ∷ es) = e

abbrev pub later_exchanges : List Exchange → List Exchange
later_exchanges [] = []
later_exchanges (e ∷ es) = es

-- `requestCasInfo`
unfoldable pub request_cas_info : Conn → Bytes
request_cas_info c = 0 ∷ 0 ∷ 0 ∷ (if c.auto_commit then 1 else 0) ∷ []

-- `if ctx.Err() != nil { return ctx.Err() }`
abbrev pub transport_error : Option Error → Error → Error
transport_error none e = e
transport_error (some ce) e = ce

-- What `ReadResponse` made of the response: a reader over it, or a connection that is bad.
unfoldable pub receive : Exchange → Conn → Result (Bytes × Bytes) × Stream → Result Reader × Conn
receive e c (ok (resp, cas_info), rest) = (ok (new_reader resp), record c { inbox = rest.ready })
receive e c (err x, rest) = (
  err (transport_error e.context_error (read_failed x)),
  record c { inbox = rest.ready; bad = true },
)

-- The outcome of the write, and the read of the response. What a failed write left on the socket
-- is not modelled: the connection is bad after it.
unfoldable pub exchange : Option Error → Exchange → Bytes → Exec Conn Reader
exchange (some w) e frame c =
    (err (transport_error e.context_error (write_failed w)), record c { bad = true })
exchange none e frame c =
    receive e (record c { sent = c.sent ++ frame ∷ [] })
      (read_response (record { ready = c.inbox ++ e.arrives; stop = e.stop }))

-- `roundTrip`
unfoldable pub round_trip : Bytes → Exec Conn Reader
round_trip payload c =
    let e = next_exchange c.script in
    if c.closed || c.bad
    then (err bad_conn, c)
    else exchange e.write_error e (write_request payload (request_cas_info c))
        (record c { script = later_exchanges c.script })

-- `Valid`
unfoldable pub valid : Conn → Bool
valid c = not c.bad && not c.closed

-- `r, err := c.roundTrip(…)`, and what is read from `r` after it.
unfoldable pub request {ℓ} : {A : Type ℓ} → Bytes → Read A → Exec Conn A
request payload m = do r ← round_trip payload; lift (m r).0

-- A healthy broker answers with nothing; a status is there only if the check failed.
unfoldable pub read_pong : Read (Unit {0})
read_pong = do left ← gets remaining; if left == 0 then pure tt else do read_status; pure tt

unfoldable pub ping : Exec Conn (Unit {0})
ping = request (new_writer ▹ raw_byte Functions.check_cas).buf read_pong

-- The status, then all that is left without its NULs.
unfoldable pub read_version : Read Bytes
read_version = do read_status; left ← gets remaining; b ← bytes (pos left); pure (trim_nul b)

unfoldable pub bool_byte : Bool → ℕ
bool_byte b = if b then 1 else 0

unfoldable pub server_version : Exec Conn Bytes
server_version c =
    request
      (new_writer ▹ raw_byte Functions.get_db_version ▹ arg_byte (bool_byte c.auto_commit)).buf
      read_version c

unfoldable pub con_close_request : Bytes
con_close_request = (new_writer ▹ raw_byte Functions.con_close).buf

-- CON_CLOSE is sent if the connection is not bad, and its outcome is dropped.
unfoldable pub say_goodbye : Conn → Conn
say_goodbye c = if c.bad then c else (round_trip con_close_request c).1

unfoldable pub close_result : Option Error → Result (Unit {0})
close_result none = ok tt
close_result (some e) = err e

unfoldable pub close : Exec Conn (Unit {0})
close c =
    if c.closed
    then (ok tt, c)
    else (close_result (say_goodbye c).close_error, record (say_goodbye c) { closed = true })
