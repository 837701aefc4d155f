-- ===== src/Examples/Wire.antt =====
-- The theorems of the wire layer at concrete inputs.
use gocubrid.Prelude.{pos, negsuc, ◌≡◌, ◌++◌, refl, [], ◌∷◌, true, map, of_word, arith}
use gocubrid.Exec.{ok}
use gocubrid.Bytes.{be_bytes, be_uint}
use gocubrid.Time.{Time, utc, date, days_in, is_leap}
use gocubrid.Time.Valid.{IsCivil, date-IsCivil}
use gocubrid.Wire.Reader.{Reader, at, int32, take_bytes}
use gocubrid.Wire.Reader.Reads.{Reads}
use gocubrid.Protocol.Text.{zeros}
use gocubrid.Protocol.Status.{read_status}
use gocubrid.Protocol.Handshake.{BrokerInfo, protocol_version, parse_connect_reply}
use gocubrid.Protocol.Handshake.Reply.{
  cas_id_field, reply_value, protocol_version-eq, parse_connect_reply_layout,
}
use gocubrid.Protocol.LobHandle.{LobHandle}
use gocubrid.Protocol.Batch.{parse_batch_response}
use gocubrid.Protocol.Batch.RoundTrip.{
  done, failed, batch_bytes, outcome_result, parse_batch_response-batch_bytes,
}

abbrev halfway : Reader
halfway = at (1 ∷ []) (2 ∷ 3 ∷ [])

status_of_seven : (read_status (at [] (0 ∷ 0 ∷ 0 ∷ 7 ∷ []))).0 ≡ ok (pos 7)
unfolding read_status int32 take_bytes be_uint of_word
status_of_seven = refl

abbrev info : BrokerInfo
info = 1 ∷ 0 ∷ 1 ∷ 0 ∷ 76 ∷ 0 ∷ 0 ∷ 0 ∷ []

info_version : protocol_version info ≡ 12
info_version = protocol_version-eq info (omega arith)

parse_connect_reply_layout_example :
    parse_connect_reply (
      be_bytes 4 9
      ++ (info ++ (cas_id_field (protocol_version info) (pos 2) ++ (zeros 20 ++ 5 ∷ []))))
    ≡ ok (reply_value 9 info (pos 2) (zeros 20))
parse_connect_reply_layout_example =
    parse_connect_reply_layout 9 info (pos 2) (zeros 20) (5 ∷ []) (omega arith) refl (omega arith)
      refl (omega (arith, info_version))

abbrev noon : Time
noon = record {
  year = pos 2024;
  month = 2;
  day = 29;
  hour = 12;
  minute = 0;
  second = 0;
  nanosecond = 5_000_000;
  location = utc;
}

noon-IsCivil : IsCivil noon
noon-IsCivil = record {
  month_pos = omega arith;
  month_le = omega arith;
  day_pos = omega arith;
  day_le = unfold days_in is_leap in omega arith;
  hour_lt = omega arith;
  minute_lt = omega arith;
  second_lt = omega arith;
  nanosecond_lt = omega arith;
}

date-IsCivil_example :
    date (pos 2024) (pos 2) (pos 29) (pos 12) (pos 0) (pos 0) (pos 5_000_000) utc ≡ noon
date-IsCivil_example = date-IsCivil noon noon-IsCivil

parse_batch_response-batch_bytes_example :
    Reads
      (parse_batch_response 12 true)
      (batch_bytes 12 true (done 3 ∷ failed 0 (negsuc 669) (120 ∷ []) ∷ []))
      (map outcome_result (done 3 ∷ failed 0 (negsuc 669) (120 ∷ []) ∷ []))
parse_batch_response-batch_bytes_example =
    parse_batch_response-batch_bytes 12 true (done 3 ∷ failed 0 (negsuc 669) (120 ∷ []) ∷ [])
      (omega arith, ((omega arith, omega arith, omega arith), tt)) (omega arith)

abbrev handle : LobHandle
handle = record { db_type = pos 23; size = pos 0; locator = 97 ∷ []; raw = 1 ∷ 2 ∷ [] }
