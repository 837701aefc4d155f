-- ===== src/Protocol/Codec/RoundTrip.antt =====
-- What a bind parameter is on the wire, and that the decoder reads the value back from it.
use gocubrid.Prelude.{
  ℕ, ℤ, pos, ◌*◌, ◌^◌, ◌<◌, ◌≡◌, ◌≢◌, refl, ap, ◌∙◌, true, false, [], ◌∷◌, ◌++◌, take_all, arith,
  of_word, to_word, of_word-to_word, to_word-lt, FitsWord,
}
use gocubrid.Exec.{ok}
use gocubrid.Bytes.{Bytes, be_uint, be_bytes, be_uint-be_bytes, length-be_bytes}
use gocubrid.Value.{Value}
use gocubrid.Wire.Writer.{Writer, ◌▹◌, arg_byte}
use gocubrid.Wire.Args.{pack, FitsArg}
use gocubrid.Wire.Packs.{
  Packs, Packs-then, Packs-arg_byte, Packs-arg_short, Packs-arg_int, Packs-arg_long,
  Packs-arg_float, Packs-arg_double, Packs-arg_string, Packs-arg_bytes, Packs-arg_null,
}
use gocubrid.Protocol.Text.{trim_nul-append_zeros, EndsPlain, zeros}
use gocubrid.Protocol.Codec.Kind.{kind_of}
use gocubrid.Protocol.Codec.DateTime.{Zones, encode_date_time}
use gocubrid.Protocol.Codec.DateTime.RoundTrip.{
  FitsDatetime, length-encode_date_time, decode_date_time-encode_date_time,
}
use gocubrid.Protocol.Codec.Decode.{decode_value, decode_levels, decode_kind, fixed}
use gocubrid.Protocol.Codec.Encode.{param_wire_type, encode_scalar_value, encode_param}

-- The bytes of a scalar's value argument.
pub payload : Value → Bytes
payload (Value.bool true) = be_bytes 2 1
payload (Value.bool false) = be_bytes 2 0
payload (Value.int n) = be_bytes 8 (to_word (2 ^ 63) n)
payload (Value.int16 n) = be_bytes 2 (to_word (2 ^ 15) n)
payload (Value.int32 n) = be_bytes 4 (to_word (2 ^ 31) n)
payload (Value.int64 n) = be_bytes 8 (to_word (2 ^ 63) n)
payload (Value.float32 x) = be_bytes 4 x
payload (Value.float64 x) = be_bytes 8 x
payload (Value.string s) = s ++ zeros 1
payload (Value.bytes b) = b
payload (Value.time t) = encode_date_time t
payload _ = []

-- The scalars that a request can carry whole: numbers of their Go type, texts with no NUL at the
-- end that fit an argument, and times that fit DATETIME.
abbrev pub IsBindable : Value → Type 0
IsBindable Value.null = Unit
IsBindable (Value.bool b) = Unit
IsBindable (Value.int n) = FitsWord (2 ^ 63) n
IsBindable (Value.int16 n) = FitsWord (2 ^ 15) n
IsBindable (Value.int32 n) = FitsWord (2 ^ 31) n
IsBindable (Value.int64 n) = FitsWord (2 ^ 63) n
IsBindable (Value.float32 x) = x < 2 ^ 32
IsBindable (Value.float64 x) = x < 2 ^ 64
IsBindable (Value.string s) = EndsPlain s × FitsArg (s ++ zeros 1)
IsBindable (Value.bytes b) = FitsArg b
IsBindable (Value.time t) = FitsDatetime t
IsBindable _ = ⊥

-- The value that comes back: booleans travel as SMALLINT and `int` as BIGINT.
abbrev pub received : Value → Value
received (Value.bool true) = Value.int16 (pos 1)
received (Value.bool false) = Value.int16 (pos 0)
received (Value.int n) = Value.int64 n
received v = v

pub Packs-encode_scalar_value :
    (v : Value) → IsBindable v → Packs (encode_scalar_value v) (payload v ∷ [])
unfolding encode_scalar_value payload
Packs-encode_scalar_value Value.null h = Packs-arg_null
Packs-encode_scalar_value (Value.bool true) h = unfold to_word in Packs-arg_short (pos 1)
Packs-encode_scalar_value (Value.bool false) h = unfold to_word in Packs-arg_short (pos 0)
Packs-encode_scalar_value (Value.int n) h = Packs-arg_long n
Packs-encode_scalar_value (Value.int16 n) h = Packs-arg_short n
Packs-encode_scalar_value (Value.int32 n) h = Packs-arg_int n
Packs-encode_scalar_value (Value.int64 n) h = Packs-arg_long n
Packs-encode_scalar_value (Value.float32 x) h = Packs-arg_float x
Packs-encode_scalar_value (Value.float64 x) h = Packs-arg_double x
Packs-encode_scalar_value (Value.string s) h = Packs-arg_string s h.1
Packs-encode_scalar_value (Value.bytes b) h = Packs-arg_bytes b h
Packs-encode_scalar_value (Value.time t) h =
    Packs-arg_bytes (encode_date_time t) (omega (arith, length-encode_date_time t))
Packs-encode_scalar_value (Value.numeric b) h = absurd h
Packs-encode_scalar_value (Value.list b) h = absurd h
Packs-encode_scalar_value (Value.lob b) h = absurd h
Packs-encode_scalar_value Value.nil_lob h = absurd h
Packs-encode_scalar_value Value.other h = absurd h

fixed-be_bytes : (k u : ℕ) (f : ℕ → Value) → u < 256 ^ k → fixed k f (be_bytes k u) ≡ ok (f u)
unfolding fixed
fixed-be_bytes k u f h =
    let size = length-be_bytes k u in
    rw (size, take_all k (be_bytes k u) (omega (arith, size)), be_uint-be_bytes k u h)
      (ground arith)

fixed-word :
    (half k : ℕ) (f : ℤ → Value) (n : ℤ)
    → 0 < half
    → 2 * half ≡ 256 ^ k
    → FitsWord half n
    → fixed k (λ u. f (of_word half u)) (be_bytes k (to_word half n)) ≡ ok (f n)
fixed-word half k f n h0 e h =
    let fits : to_word half n < 256 ^ k = rw (← e) (to_word-lt half n h0) in
    fixed-be_bytes k (to_word half n) (λ u. f (of_word half u)) fits
    ∙ ap (λ t. ok (f t)) (of_word-to_word half n h)

-- The wire type that `paramWireType` gives a value.
abbrev pub code : Value → ℕ
code Value.null = 0
code (Value.bool b) = 9
code (Value.int n) = 21
code (Value.int16 n) = 9
code (Value.int32 n) = 8
code (Value.int64 n) = 21
code (Value.float32 x) = 11
code (Value.float64 x) = 12
code (Value.string s) = 2
code (Value.bytes b) = 6
code (Value.time t) = 22
code _ = 0

pub param_wire_type-code : (v : Value) → IsBindable v → param_wire_type v ≡ ok (code v)
unfolding param_wire_type
param_wire_type-code (Value.bool b) h = refl
param_wire_type-code (Value.numeric b) h = absurd h
param_wire_type-code (Value.list b) h = absurd h
param_wire_type-code (Value.lob b) h = absurd h
param_wire_type-code Value.nil_lob h = absurd h
param_wire_type-code Value.other h = absurd h
param_wire_type-code _ h = refl

-- The type and the payload of a bound value determine the value.
pub decode_value-payload :
    (z : Zones) (v : Value)
    → IsBindable v
    → v ≢ Value.null
    → decode_value z (code v) (payload v) ≡ ok (received v)
unfolding decode_value decode_levels decode_kind kind_of payload
decode_value-payload z Value.null h some = absurd (some refl)
decode_value-payload z (Value.bool true) h some = unfold fixed be_bytes be_uint of_word in refl
decode_value-payload z (Value.bool false) h some = unfold fixed be_bytes be_uint of_word in refl
decode_value-payload z (Value.int n) h some =
    fixed-word (2 ^ 63) 8 Value.int64 n (omega arith) refl h
decode_value-payload z (Value.int16 n) h some =
    fixed-word (2 ^ 15) 2 Value.int16 n (omega arith) refl h
decode_value-payload z (Value.int32 n) h some =
    fixed-word (2 ^ 31) 4 Value.int32 n (omega arith) refl h
decode_value-payload z (Value.int64 n) h some =
    fixed-word (2 ^ 63) 8 Value.int64 n (omega arith) refl h
decode_value-payload z (Value.float32 x) h some = fixed-be_bytes 4 x Value.float32 h
decode_value-payload z (Value.float64 x) h some = fixed-be_bytes 8 x Value.float64 h
decode_value-payload z (Value.string s) h some =
    ap (λ t. ok (Value.string t)) (trim_nul-append_zeros s 1 h.0)
decode_value-payload z (Value.bytes b) h some = refl
decode_value-payload z (Value.time t) h some = rw (decode_date_time-encode_date_time t h)
decode_value-payload z (Value.numeric b) h some = absurd h
decode_value-payload z (Value.list b) h some = absurd h
decode_value-payload z (Value.lob b) h some = absurd h
decode_value-payload z Value.nil_lob h some = absurd h
decode_value-payload z Value.other h some = absurd h

pub encode_param-scalar :
    (v : Value) (w : Writer)
    → IsBindable v
    → encode_param v w ≡ (ok tt, w ▹ arg_byte (code v) ▹ encode_scalar_value v)
unfolding encode_param
encode_param-scalar (Value.list b) w h = absurd h
encode_param-scalar v w h = rw (param_wire_type-code v h)

-- Binding a bindable scalar other than NULL (a boolean; a number of its Go type; a string that does
-- not end in NUL, and bytes, each below 2^32 bytes on the wire; a civil UTC time of whole
-- milliseconds with a year of 16 bits) succeeds and appends two arguments, the type byte and the
-- payload; a decoder that is given them returns the value, a boolean as an int16 0 or 1 and an `int`
-- as an `int64`.
pub encode_param-decode_value :
    (z : Zones) (v : Value) (w : Writer)
    → IsBindable v
    → v ≢ Value.null
    → ((encode_param v w).0 ≡ ok tt)
      × ((encode_param v w).1.buf ≡ w.buf ++ pack ((code v ∷ []) ∷ payload v ∷ []))
      × (decode_value z (code v) (payload v) ≡ ok (received v))
encode_param-decode_value z v w h some =
    let packs =
      Packs-then (arg_byte (code v)) (encode_scalar_value v) ((code v ∷ []) ∷ []) (payload v ∷ [])
        (Packs-arg_byte (code v)) (Packs-encode_scalar_value v h) in
    rw (encode_param-scalar v w h) (refl, packs.run w, decode_value-payload z v h some)
