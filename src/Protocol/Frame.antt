-- ===== src/Protocol/Frame.antt =====
-- frame.go: the 8-byte header, length and cas info, in front of every payload.
pub mod RoundTrip
use gocubrid.Prelude.{
  ℕ, ◌+◌, ◌%◌, ◌^◌, ◌≤◌, Bool, List, [], ◌++◌, length, take, drop, ltb, ◌==◌, if◌then◌else◌,
}
use gocubrid.Errors.{Error, eof, unexpected_eof, payload_too_long}
use gocubrid.Exec.{Result, ok, err, Exec, pure, raise, ◌>>=◌}
use gocubrid.Bytes.{Bytes, be_bytes, be_uint}
use gocubrid.Protocol.Codes.{max_payload_size}

-- `WriteRequest`: the bytes that one `Write` is given. `cas_info` is a [4]byte.
unfoldable pub write_request : Bytes → Bytes → Bytes
write_request payload cas_info = be_bytes 4 (length payload % 2 ^ 32) ++ (cas_info ++ payload)

-- An `io.Reader`: the bytes that arrive, and the error that it gives after them.
pub record Stream : Type 0 where
  pub ready : Bytes
  pub stop : Error

-- What `io.ReadFull` makes of the end of the stream after some bytes: `io.EOF` turns into
-- `io.ErrUnexpectedEOF`, any other error is passed on.
short_read : ℕ → Error → Error
short_read n eof = if n == 0 then eof else unexpected_eof
short_read n e = e

unfoldable pub read_full : ℕ → Exec Stream Bytes
unfolding short_read
read_full n s =
    if ltb (length s.ready) n
    then (err (short_read (length s.ready) s.stop), record s { ready = [] })
    else (ok (take n s.ready), record s { ready = drop n s.ready })

unfoldable pub read_response : Exec Stream (Bytes × Bytes)
read_response = do
  header ← read_full 8
  let n = be_uint (take 4 header)
  if ltb max_payload_size n
      then raise (payload_too_long n)
      else do payload ← read_full n; pure (payload, take 4 (drop 4 header))
