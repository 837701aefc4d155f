-- ===== src/Protocol/Frame/RoundTrip.antt =====
-- A frame that was written is read back, and nothing behind it is touched.
use gocubrid.Prelude.{
  ◌%◌, ◌^◌, ◌≤◌, ◌<◌, ◌≡◌, ◌++◌, length, length-append, take, drop, take-append_left,
  drop-append_left, take-append_at, drop-append_at, take_all, length-take, subst, append_assoc,
  le→ltb, lt→ltb, arith,
}
use native.Mathlib.Nat.{mod-eq_of_lt}
use gocubrid.Errors.{Error, payload_too_long}
use gocubrid.Exec.{ok, err}
use gocubrid.Bytes.{Bytes, be_bytes, be_uint, length-be_bytes, be_uint-be_bytes}
use gocubrid.Protocol.Codes.{max_payload_size}
use gocubrid.Protocol.Frame.{write_request, Stream, read_full, read_response}

-- Reading as many bytes as stand in front.
pub read_full-append :
    (bs rest : Bytes) (stop : Error)
    → read_full (length bs) (record { ready = bs ++ rest; stop = stop })
      ≡ (ok bs, record { ready = rest; stop = stop })
unfolding read_full
read_full-append bs rest stop = rw (
  le→ltb (length (bs ++ rest)) (length bs) (omega (arith, length-append bs rest)),
  take-append_left bs rest,
  drop-append_left bs rest,
)

header_of : Bytes → Bytes → Bytes
header_of payload cas_info = be_bytes 4 (length payload % 2 ^ 32) ++ cas_info

module _ (payload cas_info : Bytes) (four : length cas_info ≡ 4)
    (fits : length payload < 2 ^ 32) where
  length-header : length (header_of payload cas_info) ≡ 8
  unfolding header_of
  length-header =
      let size : Bytes = be_bytes 4 (length payload % 2 ^ 32) in
      omega (arith, length-append size cas_info, length-be_bytes 4 (length payload % 2 ^ 32))

  header_size : be_uint (take 4 (header_of payload cas_info)) ≡ length payload
  unfolding header_of
  header_size =
      rw
        (
          take-append_at 4 _ cas_info (length-be_bytes 4 (length payload % 2 ^ 32)),
          mod-eq_of_lt fits,
        )
        (be_uint-be_bytes 4 (length payload) fits)

  header_cas_info : take 4 (drop 4 (header_of payload cas_info)) ≡ cas_info
  unfolding header_of
  header_cas_info =
      rw (drop-append_at 4 _ cas_info (length-be_bytes 4 (length payload % 2 ^ 32)))
        (take_all 4 cas_info (omega arith))

  read_header :
      (rest : Bytes) (stop : Error)
      → read_full 8 (record { ready = write_request payload cas_info ++ rest; stop = stop })
        ≡ (ok (header_of payload cas_info), record { ready = payload ++ rest; stop = stop })
  read_header rest stop =
      let split : write_request payload cas_info ++ rest
          ≡ header_of payload cas_info ++ (payload ++ rest) =
        unfold write_request header_of in simp append_assoc in
      rw split (
        subst
          (λ n.
            read_full n
              (record { ready = header_of payload cas_info ++ (payload ++ rest); stop = stop })
            ≡ (ok (header_of payload cas_info), record { ready = payload ++ rest; stop = stop }))
          length-header (read_full-append (header_of payload cas_info) (payload ++ rest) stop))

-- A payload of at most 256 MiB and its cas info, framed, are read back whatever follows, and what
-- follows stays for the next reading.
pub read_response-write_request :
    (payload cas_info rest : Bytes) (stop : Error)
    → length cas_info ≡ 4
    → length payload ≤ max_payload_size
    → read_response (record { ready = write_request payload cas_info ++ rest; stop = stop })
      ≡ (ok (payload, cas_info), record { ready = rest; stop = stop })
unfolding read_response
read_response-write_request payload cas_info rest stop four small =
    let fits : length payload < 2 ^ 32 = omega arith in
    rw (
      read_header payload cas_info four fits rest stop,
      header_size payload cas_info four fits,
      header_cas_info payload cas_info four fits,
      le→ltb max_payload_size (length payload) small,
      read_full-append payload rest stop,
    )

-- A longer payload is refused by its header, and none of it is taken off the stream.
pub read_response-too_long :
    (payload cas_info rest : Bytes) (stop : Error)
    → length cas_info ≡ 4
    → max_payload_size < length payload
    → length payload < 2 ^ 32
    → read_response (record { ready = write_request payload cas_info ++ rest; stop = stop })
      ≡ (err (payload_too_long (length payload)), record { ready = payload ++ rest; stop = stop })
unfolding read_response
read_response-too_long payload cas_info rest stop four big fits = rw (
  read_header payload cas_info four fits rest stop,
  header_size payload cas_info four fits,
  lt→ltb max_payload_size (length payload) big,
)

-- Whatever arrives, an accepted payload is within the limit.
pub read_response-le :
    (s : Stream) (payload cas_info : Bytes)
    → (read_response s).0 ≡ ok (payload, cas_info)
    → length payload ≤ max_payload_size
unfolding read_response read_full
read_response-le s payload cas_info h =
    ground (arith, length-take (be_uint (take 4 (take 8 s.ready))) (drop 8 s.ready))
