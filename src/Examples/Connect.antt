-- ===== src/Examples/Connect.antt =====
-- Connecting to a broker that lets the client in, and the theorems on it.
use gocubrid.Prelude.{pos, ◌≡◌, refl, false, [], ◌∷◌, ◌++◌, none, codes, arith, of_word}
use gocubrid.Errors.{eof}
use gocubrid.Exec.{Result, ok, err}
use gocubrid.Bytes.{Bytes, be_bytes, be_uint}
use gocubrid.Protocol.Frame.{write_request}
use gocubrid.Protocol.Text.{zeros}
use gocubrid.Protocol.Handshake.{
  ConnectReply, greeting, db_info, parse_connect_reply, read_connect_reply, parse_broker_info,
  protocol_version, read_cas_id, read_session_id, put,
}
use gocubrid.Protocol.Status.{read_status}
use gocubrid.Protocol.Codes.{at_least}
use gocubrid.Wire.Reader.{int32, bytes, take_bytes}
use gocubrid.Config.Hosts.{itoa, put_digits}
use gocubrid.Config.{Config, initial}
use gocubrid.Config.Hosts.{itoa_ℤ}
use gocubrid.Session.Connect.{Socket, Net, Link, connect, connect_host, conn_url, new_conn, address}
use gocubrid.Session.Connect.Accounts.{Accounts, connect-Accounts}
use gocubrid.Session.Connect.Greeted.{LetsIn, shaken, connect_host-LetsIn}

abbrev reply : Bytes
reply = be_bytes 4 9 ++ 0 ∷ 0 ∷ 0 ∷ 0 ∷ 76 ∷ 0 ∷ 0 ∷ 0 ∷ be_bytes 4 1 ++ zeros 20

abbrev accepted : ConnectReply
accepted = record {
  cas_pid = pos 9;
  broker = 0 ∷ 0 ∷ 0 ∷ 0 ∷ 76 ∷ 0 ∷ 0 ∷ 0 ∷ [];
  version = 12;
  cas_id = pos 1;
  session_id = zeros 20;
}

reply_parsed : parse_connect_reply reply ≡ ok accepted
unfolding parse_connect_reply read_connect_reply read_status int32 bytes take_bytes
    parse_broker_info protocol_version read_cas_id read_session_id at_least be_bytes be_uint of_word
reply_parsed = refl

abbrev socket : Socket
socket = record {
  greeting_error = none;
  auth_error = none;
  arrives = 0 ∷ 0 ∷ 0 ∷ 0 ∷ write_request reply (zeros 4) ++ [];
  stop = eof;
  exchanges = [];
  close_error = none;
}

socket-LetsIn : LetsIn socket reply [] accepted
unfolding be_bytes
socket-LetsIn = record {
  cas_info = zeros 4;
  greets = refl;
  authenticates = refl;
  arrived = refl;
  four = refl;
  small = omega arith;
  parses = reply_parsed;
}

abbrev plain : Config
plain = initial (codes "h")

abbrev net : Net
net = record {
  dials = record { outcome = ok socket; dead = false } ∷ [];
  live = [];
  next_id = 0;
  dialed = [];
  dead = false;
}

abbrev no_tls : Socket → Result Socket
no_tls s = err eof

abbrev value_or_nothing : Result Bytes → Bytes
value_or_nothing (ok b) = b
value_or_nothing (err e) = []

abbrev auth : Result Bytes
auth =
    db_info plain.database plain.user plain.password (conn_url plain (codes "h") (pos 33000)) none

auth_block : auth ≡ ok (value_or_nothing auth)
unfolding db_info put conn_url itoa_ℤ itoa put_digits
auth_block = refl

abbrev link : Link
link = record { id = 0; socket = socket; written = [] }

connect_host-LetsIn_example : connect_host no_tls plain (codes "h", pos 33000) net ≡ (
  ok (new_conn plain accepted (shaken (greeting false) (value_or_nothing auth) [] link)),
  record net {
    dials = [];
    dialed = [] ++ address (codes "h") (pos 33000) ∷ [];
    dead = false;
    live = 0 ∷ [];
    next_id = 1;
  },
)
connect_host-LetsIn_example =
    connect_host-LetsIn no_tls plain (codes "h") (pos 33000) net socket false []
      (value_or_nothing auth) reply [] accepted refl refl auth_block socket-LetsIn

connect-Accounts_example : Accounts [] (connect no_tls plain net)
connect-Accounts_example = connect-Accounts no_tls plain net tt
