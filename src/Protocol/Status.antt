-- ===== src/Protocol/Status.antt =====
-- errors.go: the status in front of every response, and the two forms of a server error.
pub mod Forms
pub mod Spent
use gocubrid.Prelude.{
  ℕ, ℤ, pos, Bool, true, false, List, [], leb, is_neg, ltb_ℤ, leb_ℤ, if◌then◌else◌,
}
use gocubrid.Errors.{Error, server}
use gocubrid.Exec.{Result, ok, err, Exec, pure, raise, gets, attempt, ◌>>=◌}
use gocubrid.Bytes.{Bytes}
use gocubrid.Wire.Reader.{Reader, Read, int32, bytes, remaining}
use gocubrid.Protocol.Text.{trim_nul}

-- `if c, cerr := r.Int32(); cerr == nil && c < 0 { code = c }`
abbrev pub code_or : ℤ → Result ℤ → ℤ
code_or rc (ok c) = if is_neg c then c else rc
code_or rc (err e) = rc

-- `if rest, rerr := …; rerr == nil { msg = string(trimNul(rest)) }`
abbrev pub message_of : Result Bytes → Bytes
message_of (ok rest) = trim_nul rest
message_of (err e) = []

unfoldable pub read_server_error : ℤ → Read ℤ
read_server_error rc = do
  left ← gets remaining
  if leb 4 left
      then (do
        c ← attempt int32
        left' ← gets remaining
        rest ← attempt (bytes (pos left'))
        raise (server (code_or rc c) (message_of rest)))
      else raise (server rc [])

unfoldable pub read_status : Read ℤ
read_status = do rc ← int32; if is_neg rc then read_server_error rc else pure rc
