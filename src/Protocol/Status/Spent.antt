-- ===== src/Protocol/Status/Spent.antt =====
-- A status takes its bytes off the reader, and an error is never a success.
use gocubrid.Prelude.{ℤ, pos, is_neg, leb, [], arith}
use gocubrid.Errors.{server}
use gocubrid.Exec.{attempt, gets}
use gocubrid.Exec.Costs.{
  Costs, Costs-pure, Costs-raise, Costs-if, Costs-bind, Costs-gets, Costs-then,
}
use gocubrid.Wire.Reader.{remaining, take_bytes, int32, bytes}
use gocubrid.Wire.Reader.Spent.{Costs-int32}
use gocubrid.Protocol.Status.{read_status, read_server_error, code_or, message_of}

Costs-attempt-bytes : (n : ℤ) → Costs remaining 0 0 (attempt (bytes n))
unfolding bytes take_bytes remaining
Costs-attempt-bytes n = record { at = λ r b h. ground arith }

Costs-attempt-int32 : Costs remaining 0 0 (attempt int32)
unfolding int32 take_bytes remaining
Costs-attempt-int32 = record { at = λ r b h. ground arith }

Costs-read_server_error : (rc : ℤ) → Costs remaining 0 0 (read_server_error rc)
unfolding read_server_error
Costs-read_server_error rc = Costs-then (gets remaining) _ (Costs-gets remaining) λ left.
    Costs-if 0 0 (leb 4 left) _ _
      (Costs-then (attempt int32) _ Costs-attempt-int32 λ c.
        Costs-then (gets remaining) _ (Costs-gets remaining) λ left'.
          Costs-then (attempt (bytes (pos left'))) _ (Costs-attempt-bytes (pos left'))
            λ rest. Costs-raise 0 0 (server (code_or rc c) (message_of rest)))
      (Costs-raise 0 0 (server rc []))

pub Costs-read_status : Costs remaining 0 4 read_status
unfolding read_status
Costs-read_status =
    Costs-bind 0 4 0 0 int32 _ Costs-int32
      λ rc. Costs-if 0 0 (is_neg rc) _ _ (Costs-read_server_error rc) (Costs-pure rc)
