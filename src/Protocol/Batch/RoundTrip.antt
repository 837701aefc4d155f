-- ===== src/Protocol/Batch/RoundTrip.antt =====
-- What a server sends for a list of outcomes is parsed to those outcomes.
use gocubrid.Prelude.{
  ℕ, suc, ℤ, pos, negsuc, ◌+◌, ◌^◌, ◌<◌, ◌≤◌, ◌≡◌, refl, ap, Bool, true, false, List, [], ◌∷◌, ◌++◌,
  length, length-append, map, All, some, none, arith, to_word, FitsWord, Bool-cases, inl, inr,
  if◌then◌else◌,
}
use gocubrid.Errors.{server, bad_batch_count}
use gocubrid.Exec.{pure, each, ◌>>◌}
use gocubrid.Bytes.{Bytes, be_bytes, length-be_bytes}
use gocubrid.Wire.Args.{arg, length-arg}
use gocubrid.Wire.Reader.{int32, byte}
use gocubrid.Wire.Reader.Reads.{
  Reads, Reads-bind, Reads-pure, Reads-map, Reads-int32, Reads-int16, Reads-byte, Reads-string,
  Reads-count,
}
use gocubrid.Wire.Reader.Loops.{Reads-guarded, Reads-each, all_bytes, all_values, length-all_bytes}
use gocubrid.Protocol.Codes.{Version, at_least}
use gocubrid.Protocol.Batch.{
  BatchResult, skip_stmt_type, read_outcome, read_batch_result, read_batch_results,
  parse_batch_response,
}

-- An outcome on the server: rows affected, or a negative result with an error code and message.
pub data Outcome : Type 0 where
  done : ℕ → Outcome
  failed : ℕ → ℤ → Bytes → Outcome

abbrev pub IsSendable : Outcome → Type 0
IsSendable (done n) = n < 2 ^ 31
IsSendable (failed i code msg) = (i < 2 ^ 31) × FitsWord (2 ^ 31) code × (length msg + 1 < 2 ^ 31)

abbrev stmt_type_bytes : Bool → Bytes
stmt_type_bytes true = 21 ∷ []
stmt_type_bytes false = []

abbrev status_word : Outcome → ℤ
status_word (done n) = pos n
status_word (failed i code msg) = negsuc i

abbrev body_bytes : Outcome → Bytes
body_bytes (done n) =
    be_bytes 4 (to_word (2 ^ 31) (pos 0))
    ++ (be_bytes 2 (to_word (2 ^ 15) (pos 0)) ++ (be_bytes 2 (to_word (2 ^ 15) (pos 0)) ++ []))
body_bytes (failed i code msg) = be_bytes 4 (to_word (2 ^ 31) code) ++ (arg (msg ++ 0 ∷ []) ++ [])

-- The wire form of an outcome; the statement type byte stands there for fn 20 only.
pub outcome_bytes : Bool → Outcome → Bytes
outcome_bytes with_stmt_type o =
    stmt_type_bytes with_stmt_type
    ++ (be_bytes 4 (to_word (2 ^ 31) (status_word o)) ++ body_bytes o)

pub outcome_result : Outcome → BatchResult
outcome_result (done n) = record { affected_rows = pos n; failure = none }
outcome_result (failed i code msg) = record {
  affected_rows = pos 0;
  failure = some (server code msg);
}

Reads-skip_stmt_type : (t : Bool) → Reads (skip_stmt_type t) (stmt_type_bytes t) tt
unfolding skip_stmt_type
Reads-skip_stmt_type true = Reads-map byte (λ _. tt) (21 ∷ []) 21 (Reads-byte 21)
Reads-skip_stmt_type false = Reads-pure tt

status_word-FitsWord : (o : Outcome) → IsSendable o → FitsWord (2 ^ 31) (status_word o)
status_word-FitsWord (done n) h = h
status_word-FitsWord (failed i code msg) h = h.0

Reads-read_outcome :
    (o : Outcome)
    → IsSendable o
    → Reads (read_outcome (status_word o)) (body_bytes o) (outcome_result o)
unfolding read_outcome outcome_result
Reads-read_outcome (done n) h = Reads-bind _ _ _ _ _ _ (Reads-int32 (pos 0) (omega arith)) (
    Reads-bind _ _ _ _ _ _ (Reads-int16 (pos 0) (omega arith))
      (Reads-bind _ _ _ _ _ _ (Reads-int16 (pos 0) (omega arith)) (Reads-pure _)))
Reads-read_outcome (failed i code msg) h =
    Reads-bind _ _ _ _ _ _ (Reads-int32 code h.1)
      (Reads-bind _ _ _ _ _ _ (Reads-string msg h.2) (Reads-pure _))

Reads-read_batch_result :
    (t : Bool) (o : Outcome)
    → IsSendable o
    → Reads (read_batch_result t) (outcome_bytes t o) (outcome_result o)
unfolding read_batch_result outcome_bytes
Reads-read_batch_result t o h = Reads-bind _ _ _ _ _ _ (Reads-skip_stmt_type t) (
    Reads-bind _ _ _ _ _ _ (Reads-int32 (status_word o) (status_word-FitsWord o h))
      (Reads-read_outcome o h))

-- The whole response behind its status: the number of outcomes, the outcomes, and from V5 on a
-- shard id.
abbrev shard_bytes : Version → Bytes
shard_bytes ver = if at_least ver 5 then be_bytes 4 (to_word (2 ^ 31) (pos 0)) else []

abbrev items_of : Bool → List Outcome → List (Bytes × BatchResult)
items_of t [] = []
items_of t (o ∷ os) = (outcome_bytes t o, outcome_result o) ∷ items_of t os

pub batch_bytes : Version → Bool → List Outcome → Bytes
batch_bytes ver t os = be_bytes 4 (length os) ++ (all_bytes (items_of t os) ++ shard_bytes ver)

length-items_of : (t : Bool) (os : List Outcome) → length (items_of t os) ≡ length os
length-items_of t [] = refl
length-items_of t (o ∷ os) = ap suc (length-items_of t os)

values-items_of :
    (t : Bool) (os : List Outcome) → all_values (items_of t os) ≡ map outcome_result os
values-items_of t [] = refl
values-items_of t (o ∷ os) = ap (λ l. outcome_result o ∷ l) (values-items_of t os)

items_of-Reads :
    (t : Bool) (os : List Outcome)
    → All IsSendable os
    → All (λ item. (i : ℕ) → Reads (read_batch_result t) item.0 item.1) (items_of t os)
items_of-Reads t [] h = tt
items_of-Reads t (o ∷ os) h = (λ i. Reads-read_batch_result t o h.0, items_of-Reads t os h.1)

-- The bound that the parser uses: an outcome takes twelve bytes at least.
length-body_bytes : (o : Outcome) → 8 ≤ length (body_bytes o)
unfolding be_bytes
length-body_bytes (done n) = omega arith
length-body_bytes (failed i code msg) =
    omega (arith, length-append (arg (msg ++ 0 ∷ [])) [], length-arg (msg ++ 0 ∷ []))

length-outcome_bytes : (t : Bool) (o : Outcome) → 12 ≤ length (outcome_bytes t o)
unfolding outcome_bytes
length-outcome_bytes t o = omega (
  arith,
  length-append (stmt_type_bytes t) (be_bytes 4 (to_word (2 ^ 31) (status_word o)) ++ body_bytes o),
  length-append (be_bytes 4 (to_word (2 ^ 31) (status_word o))) (body_bytes o),
  length-be_bytes 4 (to_word (2 ^ 31) (status_word o)),
  length-body_bytes o,
)

items_of-size : (t : Bool) (os : List Outcome) → All (λ item. 12 ≤ length item.0) (items_of t os)
items_of-size t [] = tt
items_of-size t (o ∷ os) = (length-outcome_bytes t o, items_of-size t os)

Reads-shard :
    (ver : Version) (out : List BatchResult)
    → Reads (if at_least ver 5 then (do int32; pure out) else pure out) (shard_bytes ver) out
Reads-shard ver out = elim (Bool-cases (at_least ver 5)) [
  | inl new ↦ rw new (Reads-map int32 (λ _. out) _ (pos 0) (Reads-int32 (pos 0) (omega arith)))
  | inr old ↦ rw old (Reads-pure out)
]

Reads-read_batch_results :
    (ver : Version) (t : Bool) (os : List Outcome)
    → All IsSendable os
    → Reads
        (read_batch_results ver t (length os))
        (all_bytes (items_of t os) ++ shard_bytes ver)
        (map outcome_result os)
unfolding read_batch_results
Reads-read_batch_results ver t os h =
    let loop = Reads-each (items_of t os) 0 (λ _. read_batch_result t) (items_of-Reads t os h) in
    let loop' : Reads (each 0 (length os) (λ _. read_batch_result t)) (all_bytes (items_of t os))
        (map outcome_result os) =
      rw (length-items_of t os, values-items_of t os) at loop in
    Reads-bind _ _ _ _ _ _ loop' (Reads-shard ver (map outcome_result os))

-- For every list of outcomes that fits the format the parser returns one result for each, in order,
-- and leaves what follows the response unread.
pub parse_batch_response-batch_bytes :
    (ver : Version) (t : Bool) (os : List Outcome)
    → All IsSendable os
    → length os < 2 ^ 31
    → Reads (parse_batch_response ver t) (batch_bytes ver t os) (map outcome_result os)
unfolding parse_batch_response batch_bytes
parse_batch_response-batch_bytes ver t os h small =
    Reads-bind _ _ _ _ _ _ (Reads-count (length os) small) (
      Reads-guarded (length os) 12 (λ left. bad_batch_count (pos (length os)) left)
        (read_batch_results ver t (length os)) _ _
        (omega (
          arith,
          length-append (all_bytes (items_of t os)) (shard_bytes ver),
          length-all_bytes 12 (items_of t os) (items_of-size t os),
          length-items_of t os,
        ))
        (Reads-read_batch_results ver t os h))
