-- ===== src/Adapter/Values/Widens.antt =====
-- What the adapter makes of each native value.
use gocubrid.Prelude.{
  ℕ, ℤ, pos, ltb_ℤ, ltb, length, take, ◌≡◌, refl, ap, sym, ◌∙◌, subst, Bool, true, false,
  if◌then◌else◌,
}
use gocubrid.Errors.{short_buffer, lob_too_big}
use gocubrid.Exec.{ok, err, Exec, pure, wrap, ◌>>=◌, >>=-ok, unless-ok}
use gocubrid.Session.LobStream.{read_all}
use gocubrid.Adapter.{map_err}
use gocubrid.Exec.Returns.{ok-injective}
use gocubrid.Bytes.{Bytes, be_uint}
use gocubrid.Time.{Time}
use gocubrid.Value.{Value, Values, Lob}
use gocubrid.Protocol.Codec.DateTime.{Zones}
use gocubrid.Protocol.Codec.Decode.{fixed}
use gocubrid.Session.Conn.{Conn}
use gocubrid.Session.Rows.{decode_cell}
use gocubrid.Adapter.Values.{
  ScanType, to_driver_value, lob_value, to_driver_values, widen, max_lob_bytes,
}

-- A value of a Go type.
abbrev pub HasScan : ScanType → Value → Type 0
HasScan ScanType.int64 v = (n : ℤ) × (v ≡ Value.int64 n)
HasScan ScanType.float64 v = (u : ℕ) × (v ≡ Value.float64 u)
HasScan ScanType.string v = (s : Bytes) × (v ≡ Value.string s)
HasScan ScanType.bytes v = (b : Bytes) × (v ≡ Value.bytes b)
HasScan ScanType.time v = (t : Time) × (v ≡ Value.time t)
HasScan ScanType.slice v = (vs : Values) × (v ≡ Value.list vs)
HasScan ScanType.any v = Unit

-- Whatever the adapter makes of a value, it is of that type.
abbrev pub Widens : ScanType → Value → Type 0
Widens s v = (c : Conn) (w : Value) → (to_driver_value v c).0 ≡ ok w → HasScan s w

-- Whatever is decoded by a type code widens to that type.
abbrev pub Announces : ℕ → ScanType → Type 0
Announces t s = (z : Zones) (b : Bytes) (v : Value) → decode_cell z false t b ≡ ok v → Widens s v

-- One rule for each way to decode.

pub Widens-same :
    (s : ScanType) (v w : Value)
    → ((c : Conn) → (to_driver_value v c).0 ≡ ok w)
    → HasScan s w
    → Widens s v
Widens-same s v w h has c w' e = subst (HasScan s) (ok-injective (sym (h c) ∙ e)) has

pub Widens-string : (s : Bytes) → Widens ScanType.string (Value.string s)
unfolding to_driver_value
Widens-string s =
    Widens-same ScanType.string (Value.string s) (Value.string s) (λ c. refl) (s, refl)

pub Widens-bytes : (b : Bytes) → Widens ScanType.bytes (Value.bytes b)
unfolding to_driver_value
Widens-bytes b = Widens-same ScanType.bytes (Value.bytes b) (Value.bytes b) (λ c. refl) (b, refl)

pub Widens-int16 : (n : ℤ) → Widens ScanType.int64 (Value.int16 n)
unfolding to_driver_value
Widens-int16 n = Widens-same ScanType.int64 (Value.int16 n) (Value.int64 n) (λ c. refl) (n, refl)

pub Widens-int32 : (n : ℤ) → Widens ScanType.int64 (Value.int32 n)
unfolding to_driver_value
Widens-int32 n = Widens-same ScanType.int64 (Value.int32 n) (Value.int64 n) (λ c. refl) (n, refl)

pub Widens-int64 : (n : ℤ) → Widens ScanType.int64 (Value.int64 n)
unfolding to_driver_value
Widens-int64 n = Widens-same ScanType.int64 (Value.int64 n) (Value.int64 n) (λ c. refl) (n, refl)

pub Widens-float32 : (u : ℕ) → Widens ScanType.float64 (Value.float32 u)
unfolding to_driver_value
Widens-float32 u =
    Widens-same ScanType.float64 (Value.float32 u) (Value.float64 (widen u)) (λ c. refl)
      (widen u, refl)

pub Widens-float64 : (u : ℕ) → Widens ScanType.float64 (Value.float64 u)
unfolding to_driver_value
Widens-float64 u =
    Widens-same ScanType.float64 (Value.float64 u) (Value.float64 u) (λ c. refl) (u, refl)

pub Widens-time : (t : Time) → Widens ScanType.time (Value.time t)
unfolding to_driver_value
Widens-time t = Widens-same ScanType.time (Value.time t) (Value.time t) (λ c. refl) (t, refl)

pub Widens-list : (vs : Values) → Widens ScanType.slice (Value.list vs)
unfolding to_driver_value
Widens-list vs c w e =
    let (out, got, run) = >>=-ok (to_driver_values 0 vs) (λ out. pure (Value.list out)) c w e in
    (out, ok-injective (sym e ∙ ap (λ t. t.0) run))

pub Widens-lob : (l : Lob) → Widens ScanType.bytes (Value.lob l)
unfolding to_driver_value lob_value
Widens-lob l c w e =
    let read : Exec Conn Value = wrap map_err (read_all l.handle) >>= λ b. pure (Value.bytes b) in
    let too_big = ltb_ℤ (pos max_lob_bytes) l.handle.size in
    let same = unless-ok too_big (lob_too_big l.handle.size) read c w e in
    let (b, got, run) =
      >>=-ok (wrap map_err (read_all l.handle)) (λ b. pure (Value.bytes b)) c w
        (ap (λ t. t.0) (sym same) ∙ e) in
    (b, ok-injective (sym e ∙ ap (λ t. t.0) (same ∙ run)))

fixed_by : (b : Bool) (x v : Value) → (if b then err short_buffer else ok x) ≡ ok v → v ≡ x
fixed_by true x v h = absurd (cc)
fixed_by false x v h = sym (ok-injective h)

pub fixed-ok :
    (n : ℕ) (f : ℕ → Value) (b : Bytes) (v : Value)
    → fixed n f b ≡ ok v
    → v ≡ f (be_uint (take n b))
unfolding fixed
fixed-ok n f b v h = fixed_by (ltb (length b) n) (f (be_uint (take n b))) v h
