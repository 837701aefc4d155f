-- ===== src/Examples/Values.antt =====
-- Values that the adapter delivers, and the theorems on them.
use gocubrid.Prelude.{negsuc, none, some, codes, pos, ◌≡◌, refl, false, of_word, [], ◌∷◌, arith}
use gocubrid.Config.Hosts.{atoi, itoa, itoa_ℤ, put_digits}
use gocubrid.Numeric.{Floats, scan, to_value, scan-atoi}
use gocubrid.Exec.{ok}
use gocubrid.Bytes.{Bytes, be_uint}
use gocubrid.Value.{Value}
use gocubrid.Session.Column.{Column, blank_column, decode_type}
use gocubrid.Session.Rows.{decode_cell}
use gocubrid.Protocol.Codec.Kind.{kind_of}
use gocubrid.Protocol.Codec.Decode.{decode_value, decode_levels, decode_kind, fixed}
use gocubrid.Adapter.Values.{to_driver_value, widen, bits_64, widen_subnormal, top_bit}
use gocubrid.Examples.Peer.{no_zones, conn}

abbrev int_column : Column
int_column = record blank_column { type_code = 8 }

five :
    decode_cell no_zones false (decode_type int_column) (0 ∷ 0 ∷ 0 ∷ 5 ∷ [])
    ≡ ok (Value.int32 (pos 5))
unfolding decode_cell decode_type decode_value decode_levels decode_kind kind_of fixed be_uint
    of_word
five = refl

five_widened : (to_driver_value (Value.int32 (pos 5)) (conn [])).0 ≡ ok (Value.int64 (pos 5))
unfolding to_driver_value
five_widened = refl

-- 1.5, and the smallest float32.
one_and_a_half : widen 0x3fc00000 ≡ 0x3ff8000000000000
unfolding widen bits_64
one_and_a_half = refl

smallest : widen 1 ≡ 0x36a0000000000000
unfolding widen widen_subnormal bits_64 top_bit
smallest = refl

abbrev no_floats : Floats
no_floats = record { parse_float = λ s. none; format_float = λ u. [] }

scan-atoi_example :
    (s : Bytes) × (scan no_floats (Value.int64 (negsuc 41)) ≡ ok s)
    × (atoi s ≡ some (negsuc 41))
    × (scan no_floats (to_value s) ≡ ok s)
scan-atoi_example = scan-atoi no_floats (negsuc 41) (omega arith)

scanned : scan no_floats (Value.int64 (negsuc 41)) ≡ ok (codes "-42")
unfolding scan itoa_ℤ itoa put_digits
scanned = refl
