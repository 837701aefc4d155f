-- ===== src/Value.antt =====
-- The Go values behind `any` that the driver binds and returns, and `*Lob` of cubrid/lob.go.
pub mod Lists
use gocubrid.Prelude.{ℕ, ℤ, Bool}
use gocubrid.Bytes.{Bytes}
use gocubrid.Time.{Time}
use gocubrid.Protocol.LobHandle.{LobHandle}

-- The connection of a LOB is the connection at hand.
pub record Lob : Type 0 where
  pub handle : LobHandle
  pub is_clob : Bool
  pub writable : Bool

-- A float is its IEEE bit pattern; `list` is []any; `numeric` is `cubrid.Numeric`; `nil_lob` is a
-- nil `*Lob` in an interface; `other` is a value of any other type.
mutual
  pub data Value : Type 0 where
    null : Value
    bool : Bool → Value
    int int16 int32 int64 : ℤ → Value
    float32 float64 : ℕ → Value
    string bytes numeric : Bytes → Value
    time : Time → Value
    list : Values → Value
    lob : Lob → Value
    nil_lob : Value
    other : Value

  pub data Values : Type 0 where
    nil : Values
    cons : Value → Values → Values
