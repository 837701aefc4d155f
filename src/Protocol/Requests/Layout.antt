-- ===== src/Protocol/Requests/Layout.antt =====
-- What each request builder puts on the wire, as the list of its arguments; a server that splits
-- the payload gets them back.
use gocubrid.Prelude.{
  ℕ, ℤ, pos, ◌+◌, ◌^◌, ◌≤◌, ◌<◌, ◌≡◌, Bool, true, false, List, [], ◌∷◌, ◌++◌, length, All, Option,
  none, some, arith, to_word, if◌then◌else◌, length-append, append-nil, sym,
}
use gocubrid.Bytes.{Bytes, be_bytes, length-be_bytes}
use gocubrid.Wire.Writer.{new_writer, arg_int, arg_byte, arg_long, arg_bytes}
use gocubrid.Wire.Args.{pack, split, split-pack, FitsArg}
use gocubrid.Wire.Packs.{
  Packs, Packs-then, Packs-arg_int, Packs-arg_byte, Packs-arg_long, Packs-arg_bytes,
  Packs-arg_string, Packs-arg_null, Packs-request,
}
use gocubrid.Protocol.Codes.{Version, at_least}
use gocubrid.Protocol.Codes.Functions
use gocubrid.Protocol.Batch.{zero_from}
use gocubrid.Protocol.LobHandle.{LobHandle}
use gocubrid.Protocol.Requests.{schema_info_request, arg_filter, write_lob_request}

abbrev pub int_arg : ℤ → Bytes
int_arg v = be_bytes 4 (to_word (2 ^ 31) v)

abbrev pub long_arg : ℤ → Bytes
long_arg v = be_bytes 8 (to_word (2 ^ 63) v)

abbrev pub filter_arg : Option Bytes → Bytes
filter_arg none = []
filter_arg (some s) = s ++ 0 ∷ []

-- The argument that only brokers from version `n` on are sent.
abbrev pub zero_args : ℕ → Version → List Bytes
zero_args n ver = if at_least ver n then int_arg (pos 0) ∷ [] else []

abbrev pub FitsFilter : Option Bytes → Type 0
FitsFilter none = Unit
FitsFilter (some s) = length s + 1 < 2 ^ 32

Packs-nothing : Packs (λ w. w) []
unfolding pack
Packs-nothing = record { run = λ w. sym (append-nil w.buf) }

Packs-zero_if :
    (b : Bool)
    → Packs (λ w. if b then arg_int (pos 0) w else w) (if b then int_arg (pos 0) ∷ [] else [])
Packs-zero_if true = Packs-arg_int (pos 0)
Packs-zero_if false = Packs-nothing

Packs-zero_from : (n : ℕ) (ver : Version) → Packs (zero_from n ver) (zero_args n ver)
Packs-zero_from n ver = Packs-zero_if (at_least ver n)

Packs-arg_filter : (a : Option Bytes) → FitsFilter a → Packs (arg_filter a) (filter_arg a ∷ [])
unfolding arg_filter
Packs-arg_filter none h = Packs-arg_null
Packs-arg_filter (some s) h = Packs-arg_string s (omega (arith, length-append s (0 ∷ [])))

fits_int : (v : ℤ) → FitsArg (int_arg v)
fits_int v = omega (arith, length-be_bytes 4 (to_word (2 ^ 31) v))

fits_long : (v : ℤ) → FitsArg (long_arg v)
fits_long v = omega (arith, length-be_bytes 8 (to_word (2 ^ 63) v))

fits_filter : (a : Option Bytes) → FitsFilter a → FitsArg (filter_arg a)
fits_filter none h = omega arith
fits_filter (some s) h = omega (arith, length-append s (0 ∷ []))

fits_zero : (b : Bool) → All FitsArg (if b then int_arg (pos 0) ∷ [] else [])
fits_zero true = (fits_int (pos 0), tt)
fits_zero false = tt

length-zero : (b : Bool) → length (if b then int_arg (pos 0) ∷ [] else []) ≤ 1
length-zero true = omega arith
length-zero false = omega arith

abbrev pub schema_args : ℤ → Option Bytes → Option Bytes → ℕ → Version → List Bytes
schema_args sch_type arg1 arg2 flag ver =
    int_arg sch_type ∷ filter_arg arg1 ∷ filter_arg arg2 ∷ (flag ∷ []) ∷ zero_args 5 ver

schema_info_request-pack :
    (sch_type : ℤ) (arg1 arg2 : Option Bytes) (flag : ℕ) (ver : Version)
    → FitsFilter arg1
    → FitsFilter arg2
    → (schema_info_request sch_type arg1 arg2 flag ver new_writer).buf
      ≡ Functions.get_schema_info ∷ pack (schema_args sch_type arg1 arg2 flag ver)
unfolding schema_info_request
schema_info_request-pack t a1 a2 flag ver h1 h2 = Packs-request Functions.get_schema_info _ _ (
    Packs-then (λ w. arg_byte flag (arg_filter a2 (arg_filter a1 (arg_int t w)))) (zero_from 5 ver)
      _ _
      (Packs-then (λ w. arg_filter a2 (arg_filter a1 (arg_int t w))) (arg_byte flag) _ _
        (Packs-then (λ w. arg_filter a1 (arg_int t w)) (arg_filter a2) _ _
          (Packs-then (arg_int t) (arg_filter a1) _ _ (Packs-arg_int t) (Packs-arg_filter a1 h1))
          (Packs-arg_filter a2 h2))
        (Packs-arg_byte flag))
      (Packs-zero_from 5 ver))

-- A GET_SCHEMA_INFO request, whose filters fit a 32-bit length, is its function code followed by
-- arguments that a peer splitting by their lengths reads back: the schema type, both filters (none
-- as the empty argument, a string with its NUL), the flag byte, and from V5 on a zero shard id.
pub schema_info_request-split :
    (sch_type : ℤ) (arg1 arg2 : Option Bytes) (flag : ℕ) (ver : Version)
    → FitsFilter arg1
    → FitsFilter arg2
    → (payload : Bytes) × ((schema_info_request sch_type arg1 arg2 flag ver new_writer).buf
        ≡ Functions.get_schema_info ∷ payload)
      × (split 5 payload ≡ some (schema_args sch_type arg1 arg2 flag ver))
schema_info_request-split t a1 a2 flag ver h1 h2 = (
  pack (schema_args t a1 a2 flag ver),
  schema_info_request-pack t a1 a2 flag ver h1 h2,
  split-pack (schema_args t a1 a2 flag ver) 5
      (
        fits_int t,
        (fits_filter a1 h1, (fits_filter a2 h2, (omega arith, fits_zero (at_least ver 5)))),
      )
      (omega (arith, length-zero (at_least ver 5))),
)

-- A WRITE_LOB request splits into the packed handle, the offset as eight bytes, and the data, when
-- both byte strings fit a 32-bit length.
pub write_lob_request-split :
    (h : LobHandle) (offset : ℤ) (chunk : Bytes)
    → FitsArg h.raw
    → FitsArg chunk
    → (payload : Bytes) × ((write_lob_request h offset chunk new_writer).buf
        ≡ Functions.write_lob ∷ payload)
      × (split 3 payload ≡ some (h.raw ∷ long_arg offset ∷ chunk ∷ []))
unfolding write_lob_request
write_lob_request-split h offset chunk fr fc = (
  pack (h.raw ∷ long_arg offset ∷ chunk ∷ []),
  Packs-request Functions.write_lob _ _ (
      Packs-then (λ w. arg_long offset (arg_bytes h.raw w)) (arg_bytes chunk) _ _
        (Packs-then (arg_bytes h.raw) (arg_long offset) _ _ (Packs-arg_bytes h.raw fr)
          (Packs-arg_long offset))
        (Packs-arg_bytes chunk fc)),
  split-pack (h.raw ∷ long_arg offset ∷ chunk ∷ []) 3 (fr, (fits_long offset, (fc, tt)))
      (omega arith),
)
