-- ===== src/Protocol/Codec/Decode.antt =====
-- `DecodeValue`, `DecodeSelfDescribedValue` and `decodeCollection`.
use gocubrid.Prelude.{
  ℕ, zero, suc, pos, ◌*◌, ◌/◌, ◌^◌, not, ◌||◌, [], ◌∷◌, length, take, drop, get_or, ltb, ◌==◌,
  leb_ℤ, is_neg, pos_part, bit_and, if◌then◌else◌, of_word,
}
use gocubrid.Errors.{
  short_buffer, resultset_unsupported, type_unsupported, nested_too_deep, bad_element_count,
}
use gocubrid.Exec.{Result, ok, err, bind, pure, raise, lift, gets, ◌>>=◌}
use gocubrid.Bytes.{Bytes, be_uint}
use gocubrid.Wire.Reader.{Read, byte, int32, bytes, remaining, new_reader}
use gocubrid.Value.{Value, Values, nil, cons}
use gocubrid.Protocol.Text.{trim_nul}
use gocubrid.Protocol.Codes.Types
use gocubrid.Protocol.Codec.Kind.{
  Kind, kind_of, text, json, int, short, bigint, float, double, bits, datetime, zoned, collection,
  resultset, unknown,
}
use gocubrid.Protocol.Codec.DateTime.{Zones, decode_date_time, decode_tz}

abbrev pub max_collection_depth : ℕ
max_collection_depth = 32

-- `if len(data) < n { return nil, ErrShortBuffer }`, then the number in the first `n` bytes.
unfoldable pub fixed : ℕ → (ℕ → Value) → Bytes → Result Value
fixed n f b = if ltb (length b) n then err short_buffer else ok (f (be_uint (take n b)))

-- `decodeValue` after its `switch`, over the decoder of collections.
unfoldable pub decode_kind : Zones → (Bytes → Result Value) → Kind → ℕ → Bytes → Result Value
decode_kind z coll text typ b = ok (Value.string (trim_nul b))
decode_kind z coll json typ b = ok (Value.bytes (trim_nul b))
decode_kind z coll int typ b = fixed 4 (λ u. Value.int32 (of_word (2 ^ 31) u)) b
decode_kind z coll short typ b = fixed 2 (λ u. Value.int16 (of_word (2 ^ 15) u)) b
decode_kind z coll bigint typ b = fixed 8 (λ u. Value.int64 (of_word (2 ^ 63) u)) b
decode_kind z coll float typ b = fixed 4 Value.float32 b
decode_kind z coll double typ b = fixed 8 Value.float64 b
decode_kind z coll bits typ b = ok (Value.bytes b)
decode_kind z coll datetime typ b = bind (decode_date_time typ b) λ t. ok (Value.time t)
decode_kind z coll zoned typ b = bind (decode_tz z typ b) λ t. ok (Value.time t)
decode_kind z coll collection typ b = coll b
decode_kind z coll resultset typ b = err resultset_unsupported
decode_kind z coll unknown typ b = err (type_unsupported typ)

module _ (decode : ℕ → Bytes → Result Value) where
  -- A size of zero or less is a NULL element.
  unfoldable pub read_element : ℕ → Read Value
  read_element et = do
    sz ← int32
    if leb_ℤ sz (pos 0) then pure Value.null else do eb ← bytes sz; lift (decode et eb)

  unfoldable pub read_elements : ℕ → ℕ → Read Values
  read_elements et zero = pure nil
  read_elements et (suc n) = do v ← read_element et; vs ← read_elements et n; pure (cons v vs)

  -- Each element costs its 4-byte size at least.
  unfoldable pub read_collection : Read Values
  read_collection = do
    et ← byte
    n ← int32
    left ← gets remaining
    if is_neg n || ltb left (pos_part n * 4)
        then raise (bad_element_count n left)
        else read_elements et (pos_part n)

  unfoldable pub decode_collection : Bytes → Result Value
  decode_collection b = bind (read_collection (new_reader b)).0 λ vs. ok (Value.list vs)

-- `decodeValue`: `levels` is 32 less the depth, so a collection at level 0 is refused.
unfoldable pub decode_levels : Zones → ℕ → ℕ → Bytes → Result Value
decode_levels z zero typ b = decode_kind z (λ _. err nested_too_deep) (kind_of typ) typ b
decode_levels z (suc levels) typ b =
    decode_kind z (decode_collection (decode_levels z levels)) (kind_of typ) typ b

unfoldable pub decode_value : Zones → ℕ → Bytes → Result Value
decode_value z typ b = decode_levels z max_collection_depth typ b

-- The type of a value that carries its own: `typ` is its first byte, `second` the one after.
unfoldable pub own_type : ℕ → ℕ → ℕ
own_type typ second =
    let kind = bit_and typ 0x60 / 2 ^ 5 in
    if kind == 1
    then Types.set
    else if kind == 2
    then Types.multiset
    else if kind == 3
    then Types.sequence
    else second

unfoldable pub decode_or_null : Zones → ℕ → Bytes → Result Value
decode_or_null z typ b = if typ == Types.null then ok Value.null else decode_value z typ b

unfoldable pub decode_self_described : Zones → Bytes → Result Value
decode_self_described z [] = err short_buffer
decode_self_described z (typ ∷ rest) =
    if not (bit_and typ 0x80 == 0)
    then (if ltb (length rest) 1
        then err short_buffer
        else decode_or_null z (own_type typ (get_or rest 0 0)) (drop 1 rest))
    else decode_or_null z typ rest
