-- ===== src/Session/Stmt/Prepared.antt =====
-- Whatever a broker answers to PREPARE: the counts of a statement that is returned are bounded by
-- what the client sent and by what arrived.
use gocubrid.Prelude.{
  ℕ, ℤ, ◌+◌, ◌-◌, ◌≤◌, ◌≡◌, refl, false, ◌||◌, List, length, length-append, length-take,
  length-replicate, replicate, take, none, ltb, is_neg, pos_part, arith,
}
use gocubrid.Exec.Returns.{Returns, Returns-pure, Returns-raise, Returns-if, Returns-bind}
use gocubrid.Bytes.{Bytes}
use gocubrid.Wire.Reader.{byte, int32}
use gocubrid.Protocol.Status.{read_status}
use gocubrid.Session.Column.{Column, blank_column}
use gocubrid.Session.Stmt.{
  Stmt, read_stmt, read_prepared, read_columns, statement_columns, widen, call_sp,
}

-- What every prepared statement promises.
pub record IsPrepared (sql : Bytes) (s : Stmt) : Type 0 where
  pub same_sql : s.sql ≡ sql
  pub params : s.param_count ≤ length sql
  pub width : s.cmd_type ≡ call_sp → length s.cols ≡ s.param_count + 1
  pub unused : (s.closed ≡ false) × (s.out_params ≡ none) × (s.out_row ≡ none)

length-widen : (n : ℕ) (cols : List Column) → length (widen n cols) ≡ n
unfolding widen
length-widen n cols = omega (
  arith,
  length-append (take n cols) (replicate (n - length cols) blank_column),
  length-take n cols,
  length-replicate {A = Column} (n - length cols) blank_column,
)

length-statement_columns :
    (cmd params : ℕ) (cols : List Column)
    → cmd ≡ call_sp
    → length (statement_columns cmd params cols) ≡ params + 1
unfolding statement_columns
length-statement_columns cmd params cols h = rw (h) (length-widen (params + 1) cols)

Returns-read_prepared :
    (sql : Bytes) (handle : ℤ) (cmd params : ℕ)
    → params ≤ length sql
    → Returns (IsPrepared sql) (read_prepared sql handle cmd params)
unfolding read_prepared
Returns-read_prepared sql handle cmd params h = Returns-bind byte _ λ u.
    Returns-bind read_columns _ λ cols. Returns-pure _ (record {
      same_sql = refl;
      params = h;
      width = length-statement_columns cmd params cols;
      unused = (refl, refl, refl);
    })

-- Whatever bytes answer a PREPARE, a statement that is returned is for the SQL that was sent, has no
-- more parameters than the SQL has bytes, is open and without OUT values, and, if it is a CALL of a
-- stored procedure, has one column more than parameters.
pub read_stmt-IsPrepared : (sql : Bytes) → Returns (IsPrepared sql) (read_stmt sql)
unfolding read_stmt
read_stmt-IsPrepared sql = Returns-bind read_status _ λ handle. Returns-bind int32 _ λ life.
    Returns-bind byte _ λ cmd. Returns-bind int32 _ λ pc.
      Returns-if (is_neg pc || ltb (length sql) (pos_part pc)) _
        (read_prepared sql handle cmd (pos_part pc)) (λ h. Returns-raise _)
        (λ h. Returns-read_prepared sql handle cmd (pos_part pc) (ground arith))
