-- ===== src/Examples/Peer.antt =====
-- A connection whose peer answers once, and a zone database that knows nothing.
use gocubrid.Prelude.{pos, true, false, [], ◌∷◌, ◌++◌, none}
use gocubrid.Errors.{eof}
use gocubrid.Bytes.{Bytes}
use gocubrid.Protocol.Frame.{write_request}
use gocubrid.Protocol.Text.{zeros}
use gocubrid.Protocol.Codec.DateTime.{Zones}
use gocubrid.Session.Conn.{Conn, Exchange}

abbrev pub no_zones : Zones
no_zones = record { known = λ _. false; wall_clock = λ _ t. t; parse_offset = λ _. none }

abbrev pub reply : Bytes → Exchange
reply resp = record {
  write_error = none;
  arrives = write_request resp (zeros 4) ++ [];
  stop = eof;
  context_error = none;
}

-- A fresh connection whose peer answers once.
abbrev pub conn : Bytes → Conn
conn resp = record {
  fetch_size = pos 100;
  version = 12;
  auto_commit = true;
  bad = false;
  closed = false;
  sent = [];
  inbox = [];
  script = reply resp ∷ [];
  close_error = none;
}
