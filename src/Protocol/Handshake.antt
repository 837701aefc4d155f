-- ===== src/Protocol/Handshake.antt =====
-- version.go and handshake.go: the greeting, the auth block and the connect reply.
pub mod Reply
pub mod Block
use gocubrid.Prelude.{
  ℕ, ℤ, pos, ◌+◌, ◌-◌, Bool, true, false, List, [], ◌∷◌, ◌++◌, Option, none, some, length, take,
  drop, get_or, set, replicate, bit_and, bit_or, min, ltb, leb, ◌==◌, not, if◌then◌else◌,
}
use gocubrid.Errors.{Field, dbname, user, password, url, broker_info_size, field_too_long}
use gocubrid.Exec.{Result, ok, err, bind, Exec, pure, raise, lift, gets, attempt, ◌>>=◌, ◌>>◌}
use gocubrid.Bytes.{Bytes}
use gocubrid.Wire.Reader.{Reader, Read, int32, bytes, remaining, new_reader}
use gocubrid.Protocol.Codes.{
  Version, at_least, proto_indicator, proto_ver_mask, current_protocol_version,
  flag_renewed_error_code, flag_holdable_result, client_type_jdbc,
}
use gocubrid.Protocol.Status.{read_status}

abbrev pub greeting_size : ℕ
greeting_size = 10

abbrev pub session_id_size : ℕ
session_id_size = 20

abbrev pub db_info_size : ℕ
db_info_size = 628

-- `copy(buf[lo:hi], src)`.
unfoldable pub copy_range : ℕ → ℕ → Bytes → Bytes → Bytes
copy_range lo hi src buf =
    let n = min (hi - lo) (length src) in take lo buf ++ (take n src ++ drop (lo + n) buf)

-- "CUBRK" and "CUBRS".
abbrev pub magic : Bool → Bytes
magic false = 0x43 ∷ 0x55 ∷ 0x42 ∷ 0x52 ∷ 0x4b ∷ []
magic true = 0x43 ∷ 0x55 ∷ 0x42 ∷ 0x52 ∷ 0x53 ∷ []

unfoldable pub greeting : Bool → Bytes
unfolding copy_range
greeting ssl =
    let blank = replicate greeting_size 0 in
    let plain = copy_range 0 greeting_size (magic false) blank in
    let g = if ssl then copy_range 0 greeting_size (magic true) plain else plain in
    set (set (set g 5 client_type_jdbc) 6 (bit_or proto_indicator current_protocol_version)) 7
      (bit_or flag_renewed_error_code flag_holdable_result)

-- The closure `put` of `DBInfo`, on the slice `[lo:hi]` of the block.
unfoldable pub put : ℕ → ℕ → Bytes → Field → Bytes → Result Bytes
put lo hi s field b =
    if leb (hi - lo) (length s)
    then err (field_too_long field (hi - lo - 1))
    else ok (copy_range lo hi s b)

put_session : Option Bytes → Bytes → Bytes
put_session none b = b
put_session (some sid) b = copy_range 608 628 sid b

unfoldable pub db_info : Bytes → Bytes → Bytes → Bytes → Option Bytes → Result Bytes
unfolding put_session
db_info db usr pass link session_id = bind (put 0 32 db dbname (replicate db_info_size 0)) λ b.
    bind (put 32 64 usr user b) λ b.
      bind (put 64 96 pass password b)
        λ b. bind (put 96 608 link url b) λ b. ok (put_session session_id b)

-- `BrokerInfo` is a [8]byte.
abbrev pub BrokerInfo : Type 0
BrokerInfo = Bytes

unfoldable pub parse_broker_info : Bytes → Result BrokerInfo
parse_broker_info p = if length p == 8 then ok p else err (broker_info_size (length p))

unfoldable pub protocol_version : BrokerInfo → Version
protocol_version bi =
    let v = get_or bi 4 0 in
    if not (bit_and v proto_indicator == 0) then bit_and v proto_ver_mask else 0

pub record ConnectReply : Type 0 where
  pub cas_pid : ℤ
  pub broker : BrokerInfo
  pub version : Version
  pub cas_id : ℤ
  pub session_id : Bytes

-- The CAS id is read from V4 on.
unfoldable pub read_cas_id : Version → Read ℤ
read_cas_id v = if at_least v 4 then int32 else pure (pos 0)

-- The session id: 20 bytes from V3 on; before, a 4-byte id that is skipped if it is there.
unfoldable pub read_session_id : Version → Read Bytes
read_session_id v = if at_least v 3 then bytes (pos session_id_size) else do
  left ← gets remaining
  if leb 4 left
      then (do attempt int32; pure (replicate session_id_size 0))
      else pure (replicate session_id_size 0)

unfoldable pub read_connect_reply : Read ConnectReply
read_connect_reply = do
  pid ← read_status
  bb ← bytes (pos 8)
  bi ← lift (parse_broker_info bb)
  let v = protocol_version bi
  cas ← read_cas_id v
  sid ← read_session_id v
  pure (record { cas_pid = pid; broker = bi; version = v; cas_id = cas; session_id = sid })

unfoldable pub parse_connect_reply : Bytes → Result ConnectReply
parse_connect_reply payload = (read_connect_reply (new_reader payload)).0
