-- ===== src/Session/Sequence.antt =====
-- Everything a client does over one connection, in any order: the operations as data, and what
-- holds of the connection after any sequence of them.
use gocubrid.Prelude.{append-nil, ℕ, ℤ, refl, sym, Bool, List, [], ◌∷◌, Option}
use gocubrid.Bytes.{Bytes}
use gocubrid.Value.{Value, Lob}
use gocubrid.Protocol.LobHandle.{LobHandle}
use gocubrid.Protocol.Codec.DateTime.{Zones}
use gocubrid.Session.Conn.{Conn, valid, ping, server_version, close}
use gocubrid.Session.Conn.Follows.{
  Follows, follows, Moves-request, Moves-ping, Moves-server_version, Moves-close,
}
use gocubrid.Session.Rows.{Rows, Row, next}
use gocubrid.Session.Stmt.{Stmt, prepare}
use gocubrid.Session.Stmt.Execute.{execute, close_stmt, cursor_of}
use gocubrid.Session.Tx.{
  set_isolation_level, isolation_level, set_lock_timeout, set_auto_commit, commit, rollback,
  send_for_status, end_transaction, level_in_range,
}
use gocubrid.Session.Stmt.Follows.{next-Follows, execute-Follows, close_stmt-Follows}
use gocubrid.Session.OneShot.{
  exec_once, savepoint, rollback_to_savepoint, savepoint_prefix, rollback_prefix,
}
use gocubrid.Session.BatchExec.{exec_batch, exec_batch_sql}
use gocubrid.Session.LobStream.{new_lob, read_at, read_all, append}
use gocubrid.Session.LobStream.Follows.{
  new_lob-Follows, read_at-Follows, read_all-Follows, append-Follows,
}
use gocubrid.Session.Schema.{schema_info, close_rows}
use gocubrid.Session.Schema.Listings.{tables, columns, primary_key, imported_keys, exported_keys}
use gocubrid.Session.Schema.Indexes.{indexes}
use gocubrid.Session.Schema.Follows.{
  schema_info-Follows, close_rows-Follows, tables-Follows, columns-Follows, primary_key-Follows,
  indexes-Follows, imported_keys-Follows, exported_keys-Follows,
}
use gocubrid.Session.OneShot.Follows.{by_test, exec_once-Follows, named_sql-Follows}
use gocubrid.Session.BatchExec.Follows.{exec_batch-Follows, exec_batch_sql-Follows}

-- Every method of the client that may exchange a frame with the broker, and `SetAutoCommit`, which
-- changes the frames that follow. A statement, an iterator and
-- a LOB are values of the client, so each call brings its own.
pub data Call : Type 0 where
  pings versions reads_level commits rolls_back closes : Call
  prepares : Bytes → ℕ → Call
  executes : List Value → Stmt → Call
  fetches : Stmt → Rows → Call
  closes_stmt : Stmt → Call
  sets_level sets_timeout : ℤ → Call
  sets_auto_commit : Bool → Call
  runs_once : Bytes → List Value → Call
  saves rolls_back_to : Bytes → Call
  batches : Stmt → List Row → Call
  batches_sql : List Bytes → Call
  asks_schema : ℤ → Option Bytes → Option Bytes → Bool → Bool → Call
  closes_rows : Rows → Stmt → Call
  creates_lob : Bool → Call
  reads_lob : LobHandle → ℕ → ℤ → Call
  reads_whole_lob : LobHandle → Call
  appends_lob : Bytes → Lob → Call
  lists_tables : Call
  lists_columns lists_primary_key lists_indexes lists_imported lists_exported : Bytes → Call

unfoldable pub run : Zones → Call → Conn → Conn
run z pings c = (ping c).1
run z versions c = (server_version c).1
run z reads_level c = (isolation_level c).1
run z commits c = (commit c).1
run z rolls_back c = (rollback c).1
run z closes c = (close c).1
run z (prepares sql flag) c = (prepare sql flag c).1
run z (executes args s) c = (execute z args (c, s)).1.0
run z (fetches s rows) c = (next z (cursor_of s) (c, rows)).1.0
run z (closes_stmt s) c = (close_stmt (c, s)).1.0
run z (sets_level lv) c = (set_isolation_level lv c).1
run z (sets_timeout d) c = (set_lock_timeout d c).1
run z (sets_auto_commit on) c = (set_auto_commit on c).1
run z (runs_once sql args) c = (exec_once z sql args c).1
run z (saves name) c = (savepoint z name c).1
run z (rolls_back_to name) c = (rollback_to_savepoint z name c).1
run z (batches s rows) c = (exec_batch s rows c).1
run z (batches_sql sqls) c = (exec_batch_sql sqls c).1
run z (asks_schema typ a1 a2 p1 p2) c = (schema_info typ a1 a2 p1 p2 c).1
run z (closes_rows rows s) c = (close_rows rows (c, s)).1.1.0
run z (creates_lob is_clob) c = (new_lob is_clob c).1
run z (reads_lob h want off) c = (read_at h want off c).1
run z (reads_whole_lob h) c = (read_all h c).1
run z (appends_lob p l) c = (append p (c, l)).1.0
run z lists_tables c = (tables z c).1
run z (lists_columns table) c = (columns z table c).1
run z (lists_primary_key table) c = (primary_key z table c).1
run z (lists_indexes table) c = (indexes z table c).1
run z (lists_imported table) c = (imported_keys z table c).1
run z (lists_exported table) c = (exported_keys z table c).1

unfoldable pub run_all : Zones → List Call → Conn → Conn
run_all z [] c = c
run_all z (k ∷ ks) c = run_all z ks (run z k c)

run-Follows : (z : Zones) (k : Call) (c : Conn) → Follows c (run z k c)
unfolding run isolation_level commit rollback end_transaction send_for_status prepare
    set_isolation_level set_lock_timeout set_auto_commit valid savepoint rollback_to_savepoint
run-Follows z pings c = Moves-ping.step c
run-Follows z versions c = Moves-server_version.step c
run-Follows z reads_level c = (Moves-request _ _).step c
run-Follows z commits c = (Moves-request _ _).step c
run-Follows z rolls_back c = (Moves-request _ _).step c
run-Follows z closes c = Moves-close.step c
run-Follows z (prepares sql flag) c = (Moves-request _ _).step c
run-Follows z (executes args s) c = execute-Follows z args (c, s)
run-Follows z (fetches s rows) c = next-Follows z (cursor_of s) (c, rows)
run-Follows z (closes_stmt s) c = close_stmt-Follows (c, s)
run-Follows z (sets_level lv) c =
    by_test (level_in_range c.version lv) c _ _ ((Moves-request _ _).step c) (follows.stay c)
run-Follows z (sets_timeout d) c = (Moves-request _ _).step c
run-Follows z (sets_auto_commit on) c = record {
  same_version = refl;
  grows = ([], sym (append-nil c.sent));
  still = λ h. (h, refl);
}
run-Follows z (runs_once sql args) c = exec_once-Follows z sql args c
run-Follows z (saves name) c = named_sql-Follows z savepoint_prefix name c
run-Follows z (rolls_back_to name) c = named_sql-Follows z rollback_prefix name c
run-Follows z (batches s rows) c = exec_batch-Follows s rows c
run-Follows z (batches_sql sqls) c = exec_batch_sql-Follows sqls c
run-Follows z (asks_schema typ a1 a2 p1 p2) c = schema_info-Follows typ a1 a2 p1 p2 c
run-Follows z (closes_rows rows s) c = close_rows-Follows rows (c, s)
run-Follows z (creates_lob is_clob) c = new_lob-Follows is_clob c
run-Follows z (reads_lob h want off) c = read_at-Follows h want off c
run-Follows z (reads_whole_lob h) c = read_all-Follows h c
run-Follows z (appends_lob p l) c = append-Follows p (c, l)
run-Follows z lists_tables c = tables-Follows z c
run-Follows z (lists_columns table) c = columns-Follows z table c
run-Follows z (lists_primary_key table) c = primary_key-Follows z table c
run-Follows z (lists_indexes table) c = indexes-Follows z table c
run-Follows z (lists_imported table) c = imported_keys-Follows z table c
run-Follows z (lists_exported table) c = exported_keys-Follows z table c

-- Whatever sequence of these calls is made over a connection, its version is unchanged, the frames it
-- had written stay the first ones it has written, and if it was bad or closed at the start it still
-- is, with no further frame written.
pub run_all-Follows : (z : Zones) (ks : List Call) (c : Conn) → Follows c (run_all z ks c)
unfolding run_all
run_all-Follows z [] c = follows.stay c
run_all-Follows z (k ∷ ks) c = follows.chain (run-Follows z k c) (run_all-Follows z ks (run z k c))
