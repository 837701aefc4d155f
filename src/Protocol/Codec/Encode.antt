-- ===== src/Protocol/Codec/Encode.antt =====
-- `EncodeParam`: a type byte argument and a value argument.
use gocubrid.Prelude.{ℕ, pos, Bool, true, false, not, ◌&&◌, ◌==◌, ltb, if◌then◌else◌}
use gocubrid.Errors.{
  unsupported_param, nested_bind, all_null_bind, collection_element, mixed_elements,
}
use gocubrid.Exec.{Result, ok, err, bind, wrap_error, Exec, raise, lift, modify, ◌>>=◌, ◌>>◌}
use gocubrid.Wire.Writer.{
  Writer, ◌▹◌, new_writer, raw_byte, arg_int, arg_byte, arg_short, arg_long, arg_float, arg_double,
  arg_string, arg_bytes, arg_null,
}
use gocubrid.Value.{Value, Values, nil, cons}
use gocubrid.Value.Lists.{size}
use gocubrid.Protocol.Codes.Types
use gocubrid.Protocol.Codec.DateTime.{encode_date_time}

unfoldable pub param_wire_type : Value → Result ℕ
param_wire_type Value.null = ok Types.null
param_wire_type (Value.bool b) = ok Types.short
param_wire_type (Value.int16 n) = ok Types.short
param_wire_type (Value.int32 n) = ok Types.int
param_wire_type (Value.int n) = ok Types.bigint
param_wire_type (Value.int64 n) = ok Types.bigint
param_wire_type (Value.float32 x) = ok Types.float
param_wire_type (Value.float64 x) = ok Types.double
param_wire_type (Value.string s) = ok Types.varchar
param_wire_type (Value.bytes b) = ok Types.varbit
param_wire_type (Value.time t) = ok Types.datetime
param_wire_type _ = err unsupported_param

unfoldable pub encode_scalar_value : Value → Writer → Writer
encode_scalar_value Value.null w = arg_null w
encode_scalar_value (Value.bool true) w = arg_short (pos 1) w
encode_scalar_value (Value.bool false) w = arg_short (pos 0) w
encode_scalar_value (Value.int n) w = arg_long n w
encode_scalar_value (Value.int16 n) w = arg_short n w
encode_scalar_value (Value.int32 n) w = arg_int n w
encode_scalar_value (Value.int64 n) w = arg_long n w
encode_scalar_value (Value.float32 x) w = arg_float x w
encode_scalar_value (Value.float64 x) w = arg_double x w
encode_scalar_value (Value.string s) w = arg_string s w
encode_scalar_value (Value.bytes b) w = arg_bytes b w
encode_scalar_value (Value.time t) w = arg_bytes (encode_date_time t) w
encode_scalar_value _ w = w

unfoldable pub is_null : Value → Bool
is_null Value.null = true
is_null _ = false

unfoldable pub is_list : Value → Bool
is_list (Value.list vs) = true
is_list _ = false

-- The element type after one more element of type `t`.
unfoldable pub join_type : ℕ → Bool → ℕ → Result ℕ
join_type et false t = ok t
join_type et true t = if t == et then ok et else err (mixed_elements et t)

-- The first loop: the element type, and whether any element was not nil.
unfoldable pub scan_elements : ℕ → Bool → Values → Result (ℕ × Bool)
scan_elements et seen nil = ok (et, seen)
scan_elements et seen (cons v vs) = elim (is_null v) [
  | true ↦ scan_elements et seen vs
  | false ↦ elim (is_list v) [
    | true ↦ err nested_bind
    | false ↦
        bind (wrap_error collection_element (param_wire_type v))
          λ t. bind (join_type et seen t) λ et'. scan_elements et' true vs
  ]
]

-- The second loop. A nil element and a nil value are the same null argument.
unfoldable pub write_elements : Values → Writer → Writer
write_elements nil w = w
write_elements (cons v vs) w =
    write_elements vs (if is_null v then arg_null w else encode_scalar_value v w)

unfoldable pub encode_collection_param : Values → Exec Writer (Unit {0})
encode_collection_param vs = do
  (et, seen) ← lift (scan_elements Types.object false vs)
  if ltb 0 (size vs) && not seen then raise all_null_bind else do
    let inner = write_elements vs (new_writer ▹ raw_byte et)
    modify (arg_byte Types.sequence)
    modify (arg_bytes inner.buf)

unfoldable pub encode_param : Value → Exec Writer (Unit {0})
encode_param (Value.list vs) = encode_collection_param vs
encode_param v = do
  typ ← lift (param_wire_type v)
  modify (arg_byte typ)
  modify (encode_scalar_value v)
