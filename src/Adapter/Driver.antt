-- ===== src/Adapter/Driver.antt =====
-- driver.go, connector.go, rows.go and conn.go of the root package: opening a connection from a DSN,
-- `Next` of rows with the conversion of its values, and the check of a bind value.
pub mod Delivers
use gocubrid.Prelude.{refl, Bool, true, List, if◌then◌else◌}
use gocubrid.Errors.{named_parameter, driver_skip}
use gocubrid.Exec.{Result, ok, err, Exec, lift, ◌>>=◌}
use gocubrid.Bytes.{Bytes}
use gocubrid.Value.{Value}
use gocubrid.Protocol.Codec.DateTime.{Zones}
use gocubrid.Config.{Config, Library, parse_dsn}
use gocubrid.Session.Conn.{Conn}
use gocubrid.Session.Column.{Column}
use gocubrid.Session.Rows.{Rows, Cursor}
use gocubrid.Session.Failover.{Swept}
use gocubrid.Session.Connect.{Socket, Net, connect}
use gocubrid.Session.Connect.Sockets.{IsFresh}
use gocubrid.Session.Connect.Accounts.{Accounts, connect-Accounts}
use gocubrid.Adapter.{NamedValue, is_named}
use gocubrid.Adapter.Rows.{next_row}
use gocubrid.Adapter.Values.{to_driver_row}

-- `OpenConnector`: a connector is its configuration.
unfoldable pub open_connector : Library → Bytes → Result Config
open_connector lib dsn = parse_dsn lib dsn

-- `Open`, which connects once, with `Connect` of the connector.
unfoldable pub open_conn : Library → (Socket → Result Socket) → Bytes → Exec Net (Swept Conn)
open_conn lib tls dsn = do cfg ← lift (open_connector lib dsn); connect tls cfg

-- `Next` of rows: a row, and its values converted over the connection.
unfoldable pub next_values : Zones → Cursor → Exec (Conn × Rows) (List Value)
next_values z k = do
  row ← next_row z k
  λ s. let out = to_driver_row row s.0 in (out.0, (out.1, s.1))

-- `ColumnTypeNullable`, which is known for every column.
unfoldable pub column_nullable : Column → Bool × Bool
column_nullable col = (col.nullable, true)

-- LOBs and collections are bound as they are; the default converter sees every other value.
abbrev admit : Value → Result (Unit {0})
admit (Value.lob l) = ok tt
admit Value.nil_lob = ok tt
admit (Value.list vs) = ok tt
admit v = err driver_skip

-- `CheckNamedValue`
unfoldable pub check_named_value : NamedValue → Result (Unit {0})
check_named_value a = if is_named a then err (named_parameter a.name) else admit a.value

dialed :
    (tls : Socket → Result Socket) (r : Result Config) (n : Net)
    → IsFresh n
    → Accounts n.live ((lift r >>= connect tls) n)
dialed tls (ok cfg) n h = connect-Accounts tls cfg n h
dialed tls (err e) n h = refl

-- `Open` leaves one more open socket if it gives a connection, and none if it fails, also when the
-- DSN is refused.
pub open_conn-Accounts :
    (lib : Library) (tls : Socket → Result Socket) (dsn : Bytes) (n : Net)
    → IsFresh n
    → Accounts n.live (open_conn lib tls dsn n)
unfolding open_conn
open_conn-Accounts lib tls dsn n h = dialed tls (open_connector lib dsn) n h
