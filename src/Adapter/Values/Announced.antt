-- ===== src/Adapter/Values/Announced.antt =====
-- The announced type of every column.
use gocubrid.Prelude.{
  ℕ, ◌≡◌, refl, sym, subst, Bool, true, false, List, [], ◌∷◌, All, ==_iff, ◌==◌, if◌then◌else◌,
  codes,
}
use gocubrid.Exec.{ok}
use gocubrid.Bytes.{Bytes, one_of, same_bytes}
use gocubrid.Value.{Value}
use gocubrid.Protocol.Codes.Types
use gocubrid.Protocol.Codec.DateTime.{Zones}
use gocubrid.Protocol.Codec.Kind.{kind_of}
use gocubrid.Session.Conn.{Conn}
use gocubrid.Session.Column.{Column, decode_type}
use gocubrid.Session.Column.Names.{name_in, type_names, type_name}
use gocubrid.Session.Rows.{decode_cell}
use gocubrid.Adapter.Values.{scan_type, column_scan_type, to_driver_value}
use gocubrid.Adapter.Values.Widens.{HasScan, Announces}
use gocubrid.Adapter.Values.Scans.{
  Announces-any, Announces-lob, Announces-text, Announces-json, Announces-bits, Announces-int,
  Announces-short, Announces-bigint, Announces-float, Announces-double, Announces-datetime,
  Announces-zoned, Announces-collection,
}

-- Pairs, written in a row.
infixr 20 ◌&◌
abbrev ◌&◌ {ℓ κ} : {A : Type ℓ} {B : Type κ} → A → B → A × B
a & b = (a, b)

All-named : All (λ e. Announces e.0 (scan_type e.1)) type_names
unfolding scan_type one_of same_bytes kind_of
All-named =
    Announces-any Types.null
    & Announces-text Types.char (refl, refl) refl
    & Announces-text Types.varchar (refl, refl) refl
    & Announces-text Types.nchar (refl, refl) refl
    & Announces-text Types.var_nchar (refl, refl) refl
    & Announces-bits Types.bit (refl, refl) refl
    & Announces-bits Types.varbit (refl, refl) refl
    & Announces-text Types.numeric (refl, refl) refl
    & Announces-int Types.int (refl, refl) refl
    & Announces-int Types.u_int (refl, refl) refl
    & Announces-short Types.short (refl, refl) refl
    & Announces-short Types.u_short (refl, refl) refl
    & Announces-double Types.monetary (refl, refl) refl
    & Announces-float Types.float (refl, refl) refl
    & Announces-double Types.double (refl, refl) refl
    & Announces-datetime Types.date (refl, refl) refl
    & Announces-datetime Types.time (refl, refl) refl
    & Announces-datetime Types.timestamp (refl, refl) refl
    & Announces-collection Types.set (refl, refl) refl
    & Announces-collection Types.multiset (refl, refl) refl
    & Announces-collection Types.sequence (refl, refl) refl
    & Announces-any Types.object
    & Announces-any Types.resultset
    & Announces-bigint Types.bigint (refl, refl) refl
    & Announces-bigint Types.u_bigint (refl, refl) refl
    & Announces-datetime Types.datetime (refl, refl) refl
    & Announces-lob Types.blob refl refl
    & Announces-lob Types.clob refl refl
    & Announces-text Types.enum (refl, refl) refl
    & Announces-zoned Types.timestamp_tz (refl, refl) refl
    & Announces-zoned Types.timestamp_ltz (refl, refl) refl
    & Announces-zoned Types.datetime_tz (refl, refl) refl
    & Announces-zoned Types.datetime_ltz (refl, refl) refl
    & Announces-json Types.json (refl, refl) refl
    & tt

named_by :
    (b : Bool) (t k : ℕ) (name rest : Bytes)
    → (t == k) ≡ b
    → Announces k (scan_type name)
    → Announces t (scan_type rest)
    → Announces t (scan_type (if b then name else rest))
named_by true t k name rest e h g =
    subst (λ n. Announces n (scan_type name)) (sym ((==_iff t k).0 e)) h
named_by false t k name rest e h g = g

nameless : (t : ℕ) → Announces t (scan_type [])
unfolding scan_type one_of same_bytes
nameless t = Announces-any t

name_in-Announces :
    (t : ℕ) (cases : List (ℕ × Bytes))
    → All (λ e. Announces e.0 (scan_type e.1)) cases
    → Announces t (scan_type (name_in t cases))
unfolding name_in
name_in-Announces t [] h = nameless t
name_in-Announces t ((k, name) ∷ cases) h =
    named_by (t == k) t k name (name_in t cases) refl h.0 (name_in-Announces t cases h.1)

collection_named :
    (b : Bool) (t u : ℕ) (name rest : Bytes)
    → Announces t (scan_type name)
    → Announces u (scan_type rest)
    → Announces (if b then t else u) (scan_type (if b then name else rest))
collection_named true t u name rest h g = h
collection_named false t u name rest h g = g

set_named : Announces Types.set (scan_type (codes "SET"))
unfolding scan_type one_of same_bytes kind_of
set_named = Announces-collection Types.set (refl, refl) refl

multiset_named : Announces Types.multiset (scan_type (codes "MULTISET"))
unfolding scan_type one_of same_bytes kind_of
multiset_named = Announces-collection Types.multiset (refl, refl) refl

sequence_named : Announces Types.sequence (scan_type (codes "SEQUENCE"))
unfolding scan_type one_of same_bytes kind_of
sequence_named = Announces-collection Types.sequence (refl, refl) refl

-- For every column of a result, a value that is decoded for it and converted by the adapter has the
-- type that `ColumnTypeScanType` announces for the column.
pub to_driver_value-HasScan :
    (col : Column) (z : Zones) (b : Bytes) (v : Value) (c : Conn) (w : Value)
    → decode_cell z false (decode_type col) b ≡ ok v
    → (to_driver_value v c).0 ≡ ok w
    → HasScan (column_scan_type col) w
unfolding column_scan_type type_name decode_type
to_driver_value-HasScan col z b v c w got widened =
    collection_named (col.collection == 1) Types.set _ _ _ set_named
      (collection_named (col.collection == 2) Types.multiset _ _ _ multiset_named (
        collection_named (col.collection == 3) Types.sequence _ _ _ sequence_named
          (name_in-Announces col.type_code type_names All-named)))
      z b v got c w widened
