-- ===== src/Examples/Session.antt =====
-- Runs of the connection, its statements and its rows, and their theorems at concrete inputs.
use gocubrid.Prelude.{negsuc, ◌≡◌, ◌≤◌, refl, true, [], ◌∷◌, ◌++◌, length, arith, ℕ, ◌⊎◌, All, suc}
use gocubrid.Errors.{eof, server}
use gocubrid.Exec.{ok, err, is_ok, Exec}
use gocubrid.Bytes.{Bytes, be_bytes}
use gocubrid.Wire.Reader.{new_reader}
use gocubrid.Protocol.Frame.{write_request}
use gocubrid.Protocol.Text.{zeros}
use gocubrid.Protocol.Status.Forms.{word}
use gocubrid.Session.Conn.{Conn, round_trip, request_cas_info, valid}
use gocubrid.Session.Conn.Trip.{Answers, round_trip-valid, round_trip-answered}
use gocubrid.Session.Conn.Follows.{Follows}
use gocubrid.Session.Sequence.{
  pings, creates_lob, lists_tables, commits, closes, run_all, run_all-Follows,
}
use gocubrid.Session.Tx.{commit}
use gocubrid.Session.Tx.Ends.{commit-rejected}
use gocubrid.Session.OneShot.{savepoint, rollback_to_savepoint}
use gocubrid.Session.OneShot.Savepoints.{IsPlain, savepoint-IsPlain}
use gocubrid.Examples.Peer.{no_zones, reply, conn}

conn-Answers : (resp : Bytes) → length resp ≤ 100 → Answers (conn resp) resp [] []
unfolding valid
conn-Answers resp small = record {
  exchange_now = reply resp;
  cas_info = zeros 4;
  usable = refl;
  scripted = refl;
  written = refl;
  arrived = refl;
  four = refl;
  small = omega arith;
}

round_trip-valid_example :
    is_ok (round_trip (32 ∷ []) (conn [])).0 ≡ valid (round_trip (32 ∷ []) (conn [])).1
round_trip-valid_example = round_trip-valid (32 ∷ []) (conn [])

conn-valid : valid (conn []) ≡ true
unfolding valid
conn-valid = refl

round_trip-answered_example : round_trip (32 ∷ []) (conn []) ≡ (
  ok (new_reader []),
  record (conn []) {
    sent = [] ++ write_request (32 ∷ []) (request_cas_info (conn [])) ∷ [];
    inbox = [];
    script = [];
  },
)
round_trip-answered_example =
    round_trip-answered (32 ∷ []) [] (zeros 4) [] (conn []) (reply []) [] conn-valid refl refl refl
      refl (omega arith)

abbrev refusal : Bytes
refusal = word 0 ++ (word 669 ++ ((100 ∷ []) ++ zeros 1))

commit-rejected_example :
    ((commit (conn refusal)).0 ≡ err (server (negsuc 669) (100 ∷ [])))
    × (valid (commit (conn refusal)).1 ≡ true)
commit-rejected_example =
    commit-rejected 0 669 (100 ∷ []) [] (conn refusal) [] (omega arith) (omega arith)
      (λ e. absurd (omega arith)) (conn-Answers refusal (unfold be_bytes in omega arith))

run_all-Follows_example :
    Follows
      (conn [])
      (run_all no_zones (pings ∷ creates_lob true ∷ lists_tables ∷ commits ∷ closes ∷ []) (conn []))
run_all-Follows_example =
    run_all-Follows no_zones (pings ∷ creates_lob true ∷ lists_tables ∷ commits ∷ closes ∷ [])
      (conn [])

-- A name with a space is refused; "s1" is plain.
savepoint-IsPlain_example :
    (((savepoint no_zones (115 ∷ 49 ∷ []) (conn [])).1 ≡ conn []) ⊎ All IsPlain (115 ∷ 49 ∷ []))
    × (((rollback_to_savepoint no_zones (115 ∷ 49 ∷ []) (conn [])).1 ≡ conn [])
        ⊎ All IsPlain (115 ∷ 49 ∷ []))
savepoint-IsPlain_example = savepoint-IsPlain no_zones (115 ∷ 49 ∷ []) (conn [])

-- Two hosts, both of which refuse; the world counts the attempts.
abbrev refuse : ℕ → Exec ℕ Conn
refuse host n = (err eof, suc n)
