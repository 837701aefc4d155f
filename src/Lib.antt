-- ===== src/Lib.antt =====
-- gocubrid: a client of the CUBRID database (package cubrid), its wire protocol (package
-- cubrid/internal/protocol) and its database/sql adapter (the root package).
--
-- How the program works. A connection owns one socket to a CAS process of the broker. Every
-- operation builds a request with a Writer, sends it in one frame (roundTrip of cubrid/conn.go),
-- and reads the payload of the response with a Reader. Statements, rows, LOBs and batches are
-- layers over roundTrip; the adapter is a layer over them that database/sql calls.
--
-- Which file models what.
--   Prelude, Prelude/*    tests, lists, integers with machine words, bit masks as arithmetic
--   Errors                every error of the driver, one constructor for each message
--   Exec                  (value, error) results as Result; methods that change an object as Exec, a
--                         function from a state to a result and a state; Exec/Returns, Moves and
--                         Costs are the rules for postconditions, two-state properties and bounds on
--                         what is read; Exec/Orders is about loops whose order does not matter
--   Bytes, Time           bytes and big-endian words; time.Date on civil times
--   Wire/Writer, Reader   cubrid/internal/protocol/binary.go; Wire/Args and Wire/Packs say what
--                         requests are on the wire, Wire/Reader/Reads what a reading takes off it
--   Protocol/Codes        version.go, types.go, funccodes.go
--   Protocol/Frame        frame.go: WriteRequest, ReadResponse
--   Protocol/Status       errors.go: ReadStatus
--   Protocol/Handshake    handshake.go: Greeting, DBInfo, ParseConnectReply
--   Protocol/LobHandle    lob.go of the protocol: packed locators
--   Protocol/Codec        codec.go: DecodeValue, EncodeParam and the date layouts
--   Protocol/Batch        batch.go of the protocol
--   Protocol/Requests     dbparam.go, schema.go and the LOB requests of lob.go
--   Value                 the Go values behind `any` that are bound and returned, and *Lob
--   Session/Conn          cubrid/conn.go: Conn, roundTrip, Ping, ServerVersion, Close
--   Session/Failover      cubrid/conn.go: the sweep of Connect over the hosts
--   Session/Connect       cubrid/conn.go: Connect, connectHost, handshake, over scripted sockets
--   Config                cubrid/config.go: Config, ParseDSN; Config/Hosts is splitAltHost
--   Session/OneShot       cubrid/conn.go: Exec; cubrid/tx.go: savepoints
--   Session/Tx            cubrid/tx.go: isolation, lock timeout, autocommit, Commit, Rollback
--   Session/Column, Stmt  cubrid/stmt.go: column metadata, type names, Prepare, OUT parameters,
--                         execute, Close
--   Session/Rows          cubrid/rows.go: Next, fetchNext, consumeFetch; Rows/Typed and Served, with
--                         Stmt/Typed and Adapter/Driver/Delivers, follow the types of values from
--                         the wire to database/sql
--   Session/LobStream     cubrid/lob.go: ReadAt, Append, ReadAll, NewBlob, NewClob
--   Session/BatchExec     cubrid/batch.go: ExecBatch, ExecBatchSQL
--   Session/Schema        cubrid/schema.go: SchemaInfo, names, type codes; Rows.Close
--   Session/Schema/Drain, Listings, Indexes
--                         cubrid/schema.go: forEachSchemaRow, the typed listings, the grouping of
--                         index rows and the merge of the primary key
--   Session/Sequence      all methods that exchange frames, in any order over one connection
--   Numeric               cubrid/numeric.go: Scan, Float64, Value
--   Adapter               conn.go, tx.go, stmt.go, value.go: transactions, resets, bind arguments
--   Adapter/Rows          rows.go: how Next sorts errors
--   Adapter/Values        value.go: toDriverValue; rows.go: the column descriptions
--   Adapter/Statements    conn.go, stmt.go, rows.go: preparing, executing and querying, and who closes
--   Adapter/Driver        driver.go, connector.go: opening from a DSN; rows.go: Next; CheckNamedValue
--   Examples              runs of the definitions, and the theorems at concrete inputs
-- Definitions have the names of the Go functions in snake case: roundTrip is round_trip.
--
-- State. Conn holds the fields of the Go struct that the operations read (version, autoCommit,
-- bad, closed, FetchSize), the frames written, the bytes received and not yet read, and a script:
-- for each exchange to come, the error of its write, the bytes that arrive, what a read past them
-- gives, and ctx.Err(). Past the script the peer is gone. A statement or an iterator that the Go
-- code reaches by pointer is passed beside the connection and comes back changed, also with an
-- error.
--
-- Numbers. An int32 or int64 on the wire is a big-endian word of an integer, with wrap-around;
-- Reader offsets and lengths are natural numbers. A float is its IEEE bit pattern, and the
-- conversion of a float32 to a float64 is the one that the language defines.
--
-- Bounds and fuel. Collections are decoded by recursion on the levels left, 32 at the start, as in
-- the source. The loops over a LOB recurse on the bytes still to move: every round moves one at
-- least, or it ends the loop, so the fuel is never what stops them. The loop over schema rows is
-- given one step more than the rows that the bytes still to come can hold: each call of Next that
-- gives a row serves one of the block at hand or takes a block off the script. Splitting a request
-- is given as many steps as it has arguments.
--
-- Dialing. Net is the script of the dials to come, with the sockets that they give, and the
-- account of the sockets that are open. A call of Connect takes its sockets from it and gives it
-- back.
--
-- Parameters. The zone database (time.LoadLocation), the wall clock that time.Date gives in a zone
-- whose clock skips the fields, and the parsing of numeric offsets are the record Zones;
-- url.Parse, time.ParseDuration and strings.TrimSpace are the record Library, strconv.ParseFloat
-- and strconv.FormatFloat the record Floats, and the query is a list in the order in which the map
-- is walked; the TLS handshake is a function on sockets.
--
-- Not modelled. Deadlines beyond the script; the encryption of TLS; debug dumps; the registration
-- of the driver; names of isolation levels as text; the recording proxy and the test broker. A
-- write that fails may have left bytes on the socket; the connection is bad after it, so no later
-- step depends on them. A nil *Lob is a value that can be bound, but never one of a row.
pub mod Prelude
pub mod Errors
pub mod Config
pub mod Exec
pub mod Bytes
pub mod Wire
pub mod Time
pub mod Protocol
pub mod Value
pub mod Session
pub mod Adapter
pub mod Numeric
mod Examples
