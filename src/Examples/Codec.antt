-- ===== src/Examples/Codec.antt =====
-- Runs of the value codec, and its theorems at concrete inputs.
use gocubrid.Prelude.{pos, ◌≡◌, ◌≤◌, refl, [], ◌∷◌, ◌++◌, none, false, arith, of_word}
use gocubrid.Exec.{ok}
use gocubrid.Bytes.{Bytes, be_uint}
use gocubrid.Wire.Writer.{new_writer}
use gocubrid.Wire.Args.{pack}
use gocubrid.Value.{Value, nil, cons}
use gocubrid.Protocol.Codec.DateTime.{Zones}
use gocubrid.Protocol.Codec.Decode.{
  decode_value, decode_levels, decode_kind, decode_collection, read_collection, read_elements,
  read_element, fixed,
}
use gocubrid.Protocol.Codec.Kind.{kind_of}
use gocubrid.Wire.Reader.{byte, int32, bytes, take_bytes, remaining}
use gocubrid.Protocol.Codec.Encode.{encode_param}
use gocubrid.Protocol.Codec.RoundTrip.{payload, encode_param-decode_value}
use gocubrid.Protocol.Codec.Bounds.{depth, decode_value-depth}

abbrev no_zones : Zones
no_zones = record { known = λ _. false; wall_clock = λ _ t. t; parse_offset = λ _. none }

encode_param-decode_value_example :
    ((encode_param (Value.int32 (pos 7)) new_writer).0 ≡ ok tt)
    × ((encode_param (Value.int32 (pos 7)) new_writer).1.buf
        ≡ [] ++ pack ((8 ∷ []) ∷ payload (Value.int32 (pos 7)) ∷ []))
    × (decode_value no_zones 8 (payload (Value.int32 (pos 7))) ≡ ok (Value.int32 (pos 7)))
encode_param-decode_value_example =
    encode_param-decode_value no_zones (Value.int32 (pos 7)) new_writer (omega arith) (λ e. cc)

abbrev set_of_five : Bytes
set_of_five = 8 ∷ 0 ∷ 0 ∷ 0 ∷ 1 ∷ 0 ∷ 0 ∷ 0 ∷ 4 ∷ 0 ∷ 0 ∷ 0 ∷ 5 ∷ []

abbrev list_of_five : Value
list_of_five = Value.list (cons (Value.int32 (pos 5)) nil)

decode_set : decode_value no_zones 16 set_of_five ≡ ok list_of_five
unfolding decode_value decode_levels decode_kind kind_of decode_collection read_collection
    read_elements read_element fixed byte int32 bytes take_bytes remaining be_uint of_word
decode_set = refl

decode_value-depth_example : depth list_of_five ≤ 32
decode_value-depth_example = decode_value-depth no_zones 16 set_of_five list_of_five decode_set
