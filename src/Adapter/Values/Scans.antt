-- ===== src/Adapter/Values/Scans.antt =====
-- What the adapter delivers for a column has the type that it announces.
use gocubrid.Prelude.{ℕ, ◌^◌, of_word, ◌≡◌, refl, ap, sym, ◌∙◌, subst, true, false, ◌||◌, ◌==◌}
use gocubrid.Exec.{Result, ok, bind-ok}
use gocubrid.Protocol.Text.{trim_nul}
use gocubrid.Protocol.LobHandle.{LobHandle, parse_lob_handle}
use gocubrid.Wire.Reader.{new_reader}
use gocubrid.Exec.Returns.{ok-injective}
use gocubrid.Bytes.{Bytes}
use gocubrid.Value.{Value}
use gocubrid.Protocol.Codes.Types
use gocubrid.Protocol.Codec.DateTime.{Zones}
use gocubrid.Protocol.Codec.Kind.{
  Kind, kind_of, text, json, int, short, bigint, float, double, bits, datetime, zoned, collection,
}
use gocubrid.Protocol.Codec.Decode.{
  decode_value, decode_levels, decode_kind, decode_collection, read_collection,
}
use gocubrid.Protocol.Codec.DateTime.{decode_date_time, decode_tz}
use gocubrid.Session.Rows.{decode_cell, result_lob}
use gocubrid.Adapter.Values.{ScanType}
use gocubrid.Adapter.Values.Widens.{
  Widens, Announces, Widens-bytes, Widens-float32, Widens-float64, Widens-int16, Widens-int32,
  Widens-int64, Widens-list, Widens-lob, Widens-string, Widens-time, fixed-ok,
}

-- A code that `decodeValue` gets.
abbrev pub IsPlain : ℕ → Type 0
IsPlain t = ((t == Types.null) ≡ false) × ((t == Types.blob || t == Types.clob) ≡ false)

coll_of : Zones → Bytes → Result Value
coll_of z b = decode_collection (decode_levels z 31) b

decoded :
    (t : ℕ) (z : Zones) (b : Bytes)
    → IsPlain t
    → decode_cell z false t b ≡ decode_kind z (coll_of z) (kind_of t) t b
unfolding decode_cell decode_value decode_levels coll_of
decoded t z b p = rw (p.0, p.1) refl

-- One rule for each kind.
module _ (t : ℕ) (p : IsPlain t) where
  by_kind :
      (k : Kind) (s : ScanType)
      → kind_of t ≡ k
      → ((z : Zones) (b : Bytes) (v : Value) → decode_kind z (coll_of z) k t b ≡ ok v → Widens s v)
      → Announces t s
  by_kind k s e h z b v got =
      h z b v (ap (λ x. decode_kind z (coll_of z) x t b) (sym e) ∙ sym (decoded t z b p) ∙ got)

  given :
      (k : Kind) (s : ScanType)
      → kind_of t ≡ k
      → ((z : Zones) (b : Bytes) (v : Value)
          → decode_kind z (coll_of z) k t b ≡ ok v
          → (w : Value) × (v ≡ w) × Widens s w)
      → Announces t s
  given k s e h =
      by_kind k s e
        λ z b v got. let (w, same, widens) = h z b v got in subst (Widens s) (sym same) widens

  pub Announces-text : kind_of t ≡ text → Announces t ScanType.string
  unfolding decode_kind
  Announces-text e =
      given text ScanType.string e
        λ z b v got. (Value.string (trim_nul b), sym (ok-injective got), Widens-string (trim_nul b))

  pub Announces-json : kind_of t ≡ json → Announces t ScanType.bytes
  unfolding decode_kind
  Announces-json e =
      given json ScanType.bytes e
        λ z b v got. (Value.bytes (trim_nul b), sym (ok-injective got), Widens-bytes (trim_nul b))

  pub Announces-bits : kind_of t ≡ bits → Announces t ScanType.bytes
  unfolding decode_kind
  Announces-bits e =
      given bits ScanType.bytes e
        λ z b v got. (Value.bytes b, sym (ok-injective got), Widens-bytes b)

  pub Announces-int : kind_of t ≡ int → Announces t ScanType.int64
  unfolding decode_kind
  Announces-int e =
      given int ScanType.int64 e
        λ z b v got. (_, fixed-ok 4 (λ u. Value.int32 (of_word (2 ^ 31) u)) b v got, Widens-int32 _)

  pub Announces-short : kind_of t ≡ short → Announces t ScanType.int64
  unfolding decode_kind
  Announces-short e =
      given short ScanType.int64 e
        λ z b v got. (_, fixed-ok 2 (λ u. Value.int16 (of_word (2 ^ 15) u)) b v got, Widens-int16 _)

  pub Announces-bigint : kind_of t ≡ bigint → Announces t ScanType.int64
  unfolding decode_kind
  Announces-bigint e =
      given bigint ScanType.int64 e
        λ z b v got. (_, fixed-ok 8 (λ u. Value.int64 (of_word (2 ^ 63) u)) b v got, Widens-int64 _)

  pub Announces-float : kind_of t ≡ float → Announces t ScanType.float64
  unfolding decode_kind
  Announces-float e =
      given float ScanType.float64 e
        λ z b v got. (_, fixed-ok 4 Value.float32 b v got, Widens-float32 _)

  pub Announces-double : kind_of t ≡ double → Announces t ScanType.float64
  unfolding decode_kind
  Announces-double e =
      given double ScanType.float64 e
        λ z b v got. (_, fixed-ok 8 Value.float64 b v got, Widens-float64 _)

  pub Announces-datetime : kind_of t ≡ datetime → Announces t ScanType.time
  unfolding decode_kind
  Announces-datetime e = given datetime ScanType.time e λ z b v got.
      let (time, read, same) = bind-ok (decode_date_time t b) (λ x. ok (Value.time x)) got in
      (Value.time time, sym (ok-injective same), Widens-time time)

  pub Announces-zoned : kind_of t ≡ zoned → Announces t ScanType.time
  unfolding decode_kind
  Announces-zoned e = given zoned ScanType.time e λ z b v got.
      let (time, read, same) = bind-ok (decode_tz z t b) (λ x. ok (Value.time x)) got in
      (Value.time time, sym (ok-injective same), Widens-time time)

  pub Announces-collection : kind_of t ≡ collection → Announces t ScanType.slice
  unfolding decode_kind coll_of decode_collection
  Announces-collection e = given collection ScanType.slice e λ z b v got.
      let (vs, read, same) =
        bind-ok (read_collection (decode_levels z 31) (new_reader b)).0 (λ x. ok (Value.list x))
          got in
      (Value.list vs, sym (ok-injective same), Widens-list vs)

pub Announces-lob :
    (t : ℕ)
    → (t == Types.null) ≡ false
    → (t == Types.blob || t == Types.clob) ≡ true
    → Announces t ScanType.bytes
unfolding decode_cell result_lob
Announces-lob t n l z b v got =
    let make : LobHandle → Value =
      λ h. Value.lob (record { handle = h; is_clob = t == Types.clob; writable = false }) in
    let (h, read, same) = bind-ok (parse_lob_handle b) (λ h. ok (make h)) (rw (n, l) at got) in
    subst (Widens ScanType.bytes) (ok-injective same)
      (Widens-lob (record { handle = h; is_clob = t == Types.clob; writable = false }))

pub Announces-any : (t : ℕ) → Announces t ScanType.any
Announces-any t z b v got c w e = tt
