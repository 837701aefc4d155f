-- ===== src/Session/Tx/Ends.antt =====
-- Ending a transaction against a broker that answers, and the lock timeout's range.
use gocubrid.Prelude.{
  sym, append-nil, is_neg, pos_part, ◌*◌, ℕ, ℤ, pos, negsuc, ◌^◌, ◌≤◌, ◌<◌, ◌≡◌, refl, ap, ◌∙◌,
  true, List, [], ◌∷◌, ◌++◌, FitsWord, arith,
}
use gocubrid.Exec.{Result, ok, err}
use gocubrid.Bytes.{Bytes, be_bytes}
use gocubrid.Wire.Args.{pack}
use gocubrid.Wire.Packs.{Packs-arg_byte, Packs-request}
use gocubrid.Wire.Writer.{raw_byte, new_writer, arg_byte}
use gocubrid.Wire.Reader.{Read, new_reader}
use gocubrid.Wire.Reader.Reads.{Reads, Reads-map}
use gocubrid.Errors.{server}
use gocubrid.Protocol.Text.{EndsPlain, zeros}
use gocubrid.Protocol.Codes.Functions
use gocubrid.Protocol.Status.{read_status}
use gocubrid.Protocol.Status.Forms.{Reads-read_status, read_status-renewed, word}
use gocubrid.Session.Conn.{Conn, Exchange, request, valid}
use gocubrid.Session.Conn.Trip.{Answers, answered, request-answered}
use gocubrid.Session.Tx.{commit, end_transaction, send_for_status, read_done, lock_millis}

whole {ℓ} :
    {A : Type ℓ} (m : Read A) (bs : Bytes) (a : A) → Reads m bs a → (m (new_reader bs)).0 ≡ ok a
whole m bs a h = ap (λ t. (m (new_reader t)).0) (sym (append-nil bs)) ∙ ap (λ t. t.0) (h.run [] [])

abbrev pub end_request : ℕ → Bytes
end_request kind = Functions.end_transaction ∷ pack ((kind ∷ []) ∷ [])

end_request-eq :
    (kind : ℕ)
    → (arg_byte kind (raw_byte Functions.end_transaction new_writer)).buf ≡ end_request kind
end_request-eq kind =
    Packs-request Functions.end_transaction (arg_byte kind) _ (Packs-arg_byte kind)

read_done-status : (n : ℕ) → n < 2 ^ 31 → Reads read_done (be_bytes 4 n) tt
unfolding read_done
read_done-status n h =
    Reads-map read_status (λ v. tt) (be_bytes 4 n) (pos n) (Reads-read_status n h)

end_transaction-answered :
    (kind : ℕ) (resp later : Bytes) (c : Conn) (es : List Exchange) (out : Result (Unit {0}))
    → (read_done (new_reader resp)).0 ≡ out
    → Answers c resp later es
    → end_transaction kind c ≡ (out, answered (end_request kind) later es c)
unfolding end_transaction send_for_status
end_transaction-answered kind resp later c es out e h =
    ap (λ p. request p read_done c) (end_request-eq kind)
    ∙ (request-answered (end_request kind) read_done resp later c es h).0
    ∙ ap (λ r. (r, answered (end_request kind) later es c)) e

-- A commit that the broker answers with a status that is no error succeeds, and has written one
-- frame: END_TRANSACTION with the byte 1.
pub commit-answered :
    (n : ℕ) (later : Bytes) (c : Conn) (es : List Exchange)
    → n < 2 ^ 31
    → Answers c (be_bytes 4 n) later es
    → commit c ≡ (ok tt, answered (end_request 1) later es c)
unfolding commit
commit-answered n later c es small h =
    end_transaction-answered 1 (be_bytes 4 n) later c es (ok tt)
      (whole read_done _ tt (read_done-status n small)) h

read_done-server :
    (n m : ℕ) (message : Bytes)
    → n < 2 ^ 31
    → m < 2 ^ 31
    → EndsPlain message
    → (read_done (new_reader (word n ++ (word m ++ (message ++ zeros 1))))).0
      ≡ err (server (negsuc m) message)
unfolding read_done
read_done-server n m message hn hm plain =
    rw (read_status-renewed [] message n m 1 hn hm plain) refl

-- A commit that the server rejects, with a status, a code and a NUL-terminated message, returns
-- that code and message, and leaves the connection usable: an error of the server does not poison
-- it.
pub commit-rejected :
    (n m : ℕ) (message later : Bytes) (c : Conn) (es : List Exchange)
    → n < 2 ^ 31
    → m < 2 ^ 31
    → EndsPlain message
    → Answers c (word n ++ (word m ++ (message ++ zeros 1))) later es
    → ((commit c).0 ≡ err (server (negsuc m) message)) × (valid (commit c).1 ≡ true)
unfolding commit
commit-rejected n m message later c es hn hm plain h =
    let out =
      end_transaction-answered 1 _ later c es _ (read_done-server n m message hn hm plain) h in
    (
      ap (λ t. t.0) out,
      ap (λ t. valid t.1) out ∙ (request-answered (end_request 1) read_done _ later c es h).1,
    )

-- The lock timeout on the wire is an int32, -1 for every negative duration, and never more
-- milliseconds than the duration has.
pub lock_millis-bounds :
    (d : ℤ)
    → FitsWord (2 ^ 31) (lock_millis d)
      × (pos_part (lock_millis d) * 1_000_000 ≤ pos_part d)
      × (is_neg (lock_millis d) ≡ is_neg d)
unfolding lock_millis
lock_millis-bounds (negsuc n) = (omega arith, omega arith, refl)
lock_millis-bounds (pos n) = (ground arith, ground arith, ground arith)
