-- ===== src/Wire/Reader/Spent.antt =====
-- What a reader has left: every method that succeeds has taken its bytes off it.
use gocubrid.Prelude.{ℤ, pos, pos_part, arith}
use gocubrid.Exec.Costs.{Costs, Costs-pure, Costs-bind}
use gocubrid.Wire.Reader.{remaining, take_bytes, byte, int32, bytes}

pub Costs-take_bytes : (n : ℤ) → Costs remaining 0 (pos_part n) (take_bytes n)
unfolding remaining take_bytes
Costs-take_bytes n = record { at = λ r b h. ground arith }

pub Costs-byte : Costs remaining 0 1 byte
unfolding byte
Costs-byte = Costs-bind 0 1 0 0 _ _ (Costs-take_bytes (pos 1)) λ b. Costs-pure _

pub Costs-int32 : Costs remaining 0 4 int32
unfolding int32
Costs-int32 = Costs-bind 0 4 0 0 _ _ (Costs-take_bytes (pos 4)) λ b. Costs-pure _

pub Costs-bytes : (n : ℤ) → Costs remaining 0 (pos_part n) (bytes n)
unfolding bytes
Costs-bytes n = Costs-take_bytes n
