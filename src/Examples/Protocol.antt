-- ===== src/Examples/Protocol.antt =====
-- Runs of the protocol's parts, and their theorems at concrete inputs.
use gocubrid.Prelude.{pos, ◌≡◌, ◌++◌, refl, [], ◌∷◌, arith}
use gocubrid.Errors.{eof}
use gocubrid.Exec.{ok}
use gocubrid.Protocol.Frame.{write_request, read_response}
use gocubrid.Protocol.Frame.RoundTrip.{read_response-write_request}
use gocubrid.Protocol.LobHandle.{LobHandle, parse_lob_handle, set_size}
use gocubrid.Protocol.LobHandle.Consistent.{
  IsConsistent, pack_handle, parse_lob_handle-pack_handle, set_size-IsConsistent,
}

read_response-write_request_example :
    read_response
      (record { ready = write_request (7 ∷ 8 ∷ []) (0 ∷ 0 ∷ 0 ∷ 1 ∷ []) ++ 9 ∷ []; stop = eof })
    ≡ (ok (7 ∷ 8 ∷ [], 0 ∷ 0 ∷ 0 ∷ 1 ∷ []), record { ready = 9 ∷ []; stop = eof })
read_response-write_request_example =
    read_response-write_request (7 ∷ 8 ∷ []) (0 ∷ 0 ∷ 0 ∷ 1 ∷ []) (9 ∷ []) eof refl (omega arith)

abbrev blob : LobHandle
blob = record {
  db_type = pos 23;
  size = pos 5;
  locator = 97 ∷ 98 ∷ [];
  raw = pack_handle (pos 23) (pos 5) (97 ∷ 98 ∷ []);
}

parse_lob_handle-pack_handle_example :
    parse_lob_handle (pack_handle (pos 23) (pos 5) (97 ∷ 98 ∷ [])) ≡ ok blob
parse_lob_handle-pack_handle_example =
    parse_lob_handle-pack_handle (pos 23) (pos 5) (97 ∷ 98 ∷ []) (omega arith) (omega arith)
      (omega arith) (omega arith)

set_size-IsConsistent_example : IsConsistent (set_size (pos 9) blob)
set_size-IsConsistent_example =
    set_size-IsConsistent (pos 9) blob (omega arith) parse_lob_handle-pack_handle_example
