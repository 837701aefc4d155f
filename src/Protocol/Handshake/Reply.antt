-- ===== src/Protocol/Handshake/Reply.antt =====
-- What `ParseConnectReply` reads, by the protocol version in the broker info.
use gocubrid.Prelude.{
  ℕ, ℤ, pos, ◌/◌, ◌%◌, ◌^◌, ◌<◌, ◌≤◌, ◌≡◌, ap, ◌∙◌, sym, [], ◌++◌, length, append_assoc, append-nil,
  get_or, arith, if◌then◌else◌, ◌==◌, le→leb, Bool-cases, inl, inr, to_word, FitsWord, subst,
}
use gocubrid.Prelude.Bits.{bit_and-0x40, bit_and-0x3f}
use gocubrid.Exec.{ok}
use gocubrid.Bytes.{Bytes, be_bytes}
use gocubrid.Wire.Reader.{bytes, new_reader}
use gocubrid.Wire.Reader.Reads.{Reads, Reads-bind, Reads-pure, Reads-int32, Reads-bytes, Reads-lift}
use gocubrid.Protocol.Codes.{Version, at_least}
use gocubrid.Protocol.Status.Forms.{Reads-read_status}
use gocubrid.Protocol.Handshake.{
  BrokerInfo, parse_broker_info, protocol_version, ConnectReply, read_cas_id, read_session_id,
  read_connect_reply, parse_connect_reply,
}

-- The fifth byte of the broker info holds the version in its low six bits, if bit 0x40 is set; a
-- broker that does not set it speaks version 0.
pub protocol_version-eq :
    (bi : BrokerInfo)
    → get_or bi 4 0 < 256
    → protocol_version bi ≡ (if get_or bi 4 0 / 64 % 2 == 1 then get_or bi 4 0 % 64 else 0)
unfolding protocol_version
protocol_version-eq bi h =
    ground (arith, bit_and-0x40 (get_or bi 4 0) h, bit_and-0x3f (get_or bi 4 0) h)

pub protocol_version-lt : (bi : BrokerInfo) → get_or bi 4 0 < 256 → protocol_version bi < 64
protocol_version-lt bi h = ground (arith, protocol_version-eq bi h)

-- The CAS id stands in the reply from V4 on.
abbrev pub cas_id_field : Version → ℤ → Bytes
cas_id_field v cas = if at_least v 4 then be_bytes 4 (to_word (2 ^ 31) cas) else []

abbrev pub cas_id_value : Version → ℤ → ℤ
cas_id_value v cas = if at_least v 4 then cas else pos 0

Reads-read_cas_id :
    (v : Version) (cas : ℤ)
    → FitsWord (2 ^ 31) cas
    → Reads (read_cas_id v) (cas_id_field v cas) (cas_id_value v cas)
unfolding read_cas_id
Reads-read_cas_id v cas h = elim (Bool-cases (at_least v 4)) [
  | inl new ↦ rw new (Reads-int32 cas h)
  | inr old ↦ rw old (Reads-pure (pos 0))
]

Reads-read_session_id :
    (v : Version) (sid : Bytes) → 3 ≤ v → length sid ≡ 20 → Reads (read_session_id v) sid sid
unfolding read_session_id at_least
Reads-read_session_id v sid new size =
    rw (le→leb 3 v new) (subst (λ n. Reads (bytes (pos n)) sid sid) size (Reads-bytes sid))

Reads-broker_bytes : (bi : BrokerInfo) → length bi ≡ 8 → Reads (bytes (pos 8)) bi bi
Reads-broker_bytes bi size = subst (λ n. Reads (bytes (pos n)) bi bi) size (Reads-bytes bi)

parse_broker_info-eq : (bi : BrokerInfo) → length bi ≡ 8 → parse_broker_info bi ≡ ok bi
unfolding parse_broker_info
parse_broker_info-eq bi size = rw size

abbrev reply_bytes : ℕ → BrokerInfo → ℤ → Bytes → Bytes
reply_bytes pid bi cas sid =
    be_bytes 4 pid ++ (bi ++ ([] ++ (cas_id_field (protocol_version bi) cas ++ (sid ++ []))))

abbrev pub reply_value : ℕ → BrokerInfo → ℤ → Bytes → ConnectReply
reply_value pid bi cas sid = record {
  cas_pid = pos pid;
  broker = bi;
  version = protocol_version bi;
  cas_id = cas_id_value (protocol_version bi) cas;
  session_id = sid;
}

Reads-read_connect_reply :
    (pid : ℕ) (bi : BrokerInfo) (cas : ℤ) (sid : Bytes)
    → pid < 2 ^ 31
    → length bi ≡ 8
    → FitsWord (2 ^ 31) cas
    → length sid ≡ 20
    → 3 ≤ protocol_version bi
    → Reads read_connect_reply (reply_bytes pid bi cas sid) (reply_value pid bi cas sid)
unfolding read_connect_reply
Reads-read_connect_reply pid bi cas sid hp hb hc hs new =
    Reads-bind _ _ _ _ _ _ (Reads-read_status pid hp) (
      Reads-bind _ _ _ _ _ _ (Reads-broker_bytes bi hb) (
        Reads-bind _ _ _ _ _ _ (Reads-lift _ bi (parse_broker_info-eq bi hb)) (
          Reads-bind _ _ _ _ _ _ (Reads-read_cas_id (protocol_version bi) cas hc) (
            Reads-bind _ _ _ _ _ _ (Reads-read_session_id (protocol_version bi) sid new hs)
              (Reads-pure _)))))

-- From V3 on the reply is the process id, the broker info, the CAS id (from V4 on) and the session
-- id, and whatever follows them is ignored.
pub parse_connect_reply_layout :
    (pid : ℕ) (bi : BrokerInfo) (cas : ℤ) (sid rest : Bytes)
    → pid < 2 ^ 31
    → length bi ≡ 8
    → FitsWord (2 ^ 31) cas
    → length sid ≡ 20
    → 3 ≤ protocol_version bi
    → parse_connect_reply
        (be_bytes 4 pid ++ (bi ++ (cas_id_field (protocol_version bi) cas ++ (sid ++ rest))))
      ≡ ok (reply_value pid bi cas sid)
unfolding parse_connect_reply
parse_connect_reply_layout pid bi cas sid rest hp hb hc hs new =
    let whole = (Reads-read_connect_reply pid bi cas sid hp hb hc hs new).run [] rest in
    let same : reply_bytes pid bi cas sid ++ rest
        ≡ be_bytes 4 pid ++ (bi ++ (cas_id_field (protocol_version bi) cas ++ (sid ++ rest))) =
      simp (append_assoc, append-nil) in
    ap (λ t. (read_connect_reply (new_reader t)).0) (sym same) ∙ ap (λ t. t.0) whole
