-- ===== src/Protocol/Status/Forms.antt =====
-- `ReadStatus` on each form of a response: a status, an error with the renewed code and its
-- message, and an error from a broker that sends no second code.
use gocubrid.Prelude.{
  ℕ, ℤ, pos, negsuc, ◌^◌, ◌<◌, ◌≡◌, ap, ◌∙◌, sym, false, [], ◌++◌, length, length-append,
  append-nil, arith, is_neg, le→leb, to_word,
}
use gocubrid.Errors.{server}
use gocubrid.Exec.{ok, err}
use gocubrid.Bytes.{Bytes, be_bytes, length-be_bytes}
use gocubrid.Wire.Reader.{Reader, at, int32, bytes, remaining}
use gocubrid.Wire.Reader.Reads.{Reads, Reads-int32, Reads-bytes, Reads-count}
use gocubrid.Protocol.Text.{trim_nul, trim_nul-append_zeros, EndsPlain, zeros}
use gocubrid.Protocol.Status.{read_server_error, read_status}

pub remaining-at : (front xs : Bytes) → remaining (at front xs) ≡ length xs
unfolding remaining
remaining-at front xs = omega (arith, length-append front xs)

-- A status that is no error is returned, and nothing else is read.
pub Reads-read_status : (n : ℕ) → n < 2 ^ 31 → Reads read_status (be_bytes 4 n) (pos n)
unfolding read_status
Reads-read_status n h = record { run = λ front rest. rw ((Reads-count n h).run front rest) }

bytes_rest :
    (front xs : Bytes)
    → bytes (pos (remaining (at front xs))) (at front xs) ≡ (ok xs, at (front ++ xs) [])
bytes_rest front xs = rw (remaining-at front xs) (
    ap (λ t. bytes (pos (length xs)) (at front t)) (sym (append-nil xs))
    ∙ (Reads-bytes xs).run front [])

-- With the second code `w` before it, the rest is the message.
read_server_error-renewed :
    (front w text : Bytes) (rc : ℤ) (m : ℕ)
    → length w ≡ 4
    → Reads int32 w (negsuc m)
    → read_server_error rc (at front (w ++ text))
      ≡ (err (server (negsuc m) (trim_nul text)), at ((front ++ w) ++ text) [])
unfolding read_server_error
read_server_error-renewed front w text rc m four reads = rw (
  remaining-at front (w ++ text),
  le→leb 4 (length (w ++ text)) (omega (arith, length-append w text)),
  reads.run front text,
  bytes_rest (front ++ w) text,
)

read_server_error-short :
    (front short : Bytes) (rc : ℤ)
    → length short < 4
    → read_server_error rc (at front short) ≡ (err (server rc []), at front short)
unfolding read_server_error
read_server_error-short front short rc h = rw (remaining-at front short) (ground arith)

abbrev pub word : ℕ → Bytes
word i = be_bytes 4 (to_word (2 ^ 31) (negsuc i))

read_status-negative :
    (front rest : Bytes) (n : ℕ)
    → n < 2 ^ 31
    → read_status (at front (word n ++ rest))
      ≡ read_server_error (negsuc n) (at (front ++ word n) rest)
unfolding read_status
read_status-negative front rest n hn = rw ((Reads-int32 (negsuc n) hn).run front rest)

-- The renewed form: the second code is the error's, and the message is all that follows it, without
-- its trailing NULs. The whole payload is consumed.
pub read_status-renewed :
    (front message : Bytes) (n m k : ℕ)
    → n < 2 ^ 31
    → m < 2 ^ 31
    → EndsPlain message
    → read_status (at front (word n ++ (word m ++ (message ++ zeros k)))) ≡ (
      err (server (negsuc m) message),
      at (((front ++ word n) ++ word m) ++ (message ++ zeros k)) [],
    )
read_status-renewed front message n m k hn hm plain =
    read_status-negative front _ n hn
    ∙ read_server_error-renewed (front ++ word n) (word m) (message ++ zeros k) (negsuc n) m
        (length-be_bytes 4 _) (Reads-int32 (negsuc m) hm)
    ∙ rw (trim_nul-append_zeros message k plain)

-- With fewer than four bytes behind it, the status itself is the code and the message is empty.
pub read_status-legacy :
    (front short : Bytes) (n : ℕ)
    → n < 2 ^ 31
    → length short < 4
    → read_status (at front (word n ++ short))
      ≡ (err (server (negsuc n) []), at (front ++ word n) short)
read_status-legacy front short n hn h =
    read_status-negative front short n hn
    ∙ read_server_error-short (front ++ word n) short (negsuc n) h

-- On any payload a status that is returned is not negative.
pub read_status-nonneg : (r : Reader) (v : ℤ) → (read_status r).0 ≡ ok v → is_neg v ≡ false
unfolding read_status read_server_error
read_status-nonneg r v h = ground arith
