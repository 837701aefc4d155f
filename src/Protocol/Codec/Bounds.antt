-- ===== src/Protocol/Codec/Bounds.antt =====
-- Bounds on what untrusted bytes can make the decoder build: the nesting of collections, and the
-- number of their elements.
use gocubrid.Prelude.{
  ℕ, zero, suc, pos, ◌*◌, ◌≤◌, ◌≡◌, sym, arith, ltb, leb_ℤ, ◌||◌, is_neg, pos_part,
}
use Prim.Native.Nat.{max}
use gocubrid.Errors.{bad_element_count, nested_too_deep}
use gocubrid.Exec.{Result, ok, err, bind-ok, raise, gets}
use gocubrid.Exec.Returns.{
  Returns, ok-injective, Returns-pure, Returns-raise, Returns-lift, Returns-if, Returns-bind,
  Returns-bind_with,
}
use gocubrid.Bytes.{Bytes}
use gocubrid.Value.{Value, Values, nil, cons}
use gocubrid.Value.Lists.{size}
use gocubrid.Wire.Reader.{new_reader, remaining, byte, int32, bytes}
use gocubrid.Protocol.Codec.Kind.{Kind, kind_of, collection}
use gocubrid.Protocol.Codec.DateTime.{Zones}
use gocubrid.Protocol.Codec.Decode.{
  decode_value, decode_levels, decode_kind, fixed, decode_collection, read_collection,
  read_elements, read_element, max_collection_depth,
}

-- How deep collections stand inside a value.
mutual
  pub depth : Value → ℕ
  depth (Value.list vs) = suc (depth_list vs)
  depth _ = 0

  pub depth_list : Values → ℕ
  depth_list nil = 0
  depth_list (cons v vs) = max (depth v) (depth_list vs)

-- A decoder whose values are at most `n` deep.
abbrev Shallow : ℕ → (ℕ → Bytes → Result Value) → Type 0
Shallow n decode = (typ : ℕ) (b : Bytes) (v : Value) → decode typ b ≡ ok v → depth v ≤ n

module _ (n : ℕ) (decode : ℕ → Bytes → Result Value) (shallow : Shallow n decode) where
  read_element-depth : (et : ℕ) → Returns (λ v. depth v ≤ n) (read_element decode et)
  unfolding read_element depth
  read_element-depth et = Returns-bind int32 _ λ sz.
      Returns-if (leb_ℤ sz (pos 0)) _ _ (λ _. Returns-pure Value.null (omega arith))
        (λ _. Returns-bind (bytes sz) _ λ eb. Returns-lift (decode et eb) (shallow et eb))

  read_elements-depth :
      (et k : ℕ) → Returns (λ vs. (depth_list vs ≤ n) × (size vs ≡ k)) (read_elements decode et k)
  unfolding read_elements depth
  read_elements-depth et zero = Returns-pure nil (omega arith)
  read_elements-depth et (suc k) =
      Returns-bind_with (read_element decode et) _ (read_element-depth et) λ v hv.
        Returns-bind_with (read_elements decode et k) _ (read_elements-depth et k)
          λ vs hvs. Returns-pure (cons v vs) (omega arith)

  read_collection-depth : Returns (λ vs. depth_list vs ≤ n) (read_collection decode)
  unfolding read_collection
  read_collection-depth = Returns-bind byte _ λ et. Returns-bind int32 _ λ k.
      Returns-bind (gets remaining) _ λ left.
        Returns-if (is_neg k || ltb left (pos_part k * 4)) (raise (bad_element_count k left))
          (read_elements decode et (pos_part k)) (λ _. Returns-raise (bad_element_count k left))
          λ _. record { at = λ s vs h. ((read_elements-depth et (pos_part k)).at s vs h).0 }

  decode_collection-depth :
      (b : Bytes) (v : Value) → decode_collection decode b ≡ ok v → depth v ≤ suc n
  unfolding decode_collection depth
  decode_collection-depth b v h =
      let (vs, e, same) =
        bind-ok (read_collection decode (new_reader b)).0 (λ vs. ok (Value.list vs)) h in
      rw (ok-injective (sym same)) (omega (arith, read_collection-depth.at (new_reader b) vs e))

decode_kind-depth :
    (z : Zones) (coll : Bytes → Result Value) (n : ℕ)
    → ((b : Bytes) (v : Value) → coll b ≡ ok v → depth v ≤ n)
    → (k : Kind) (typ : ℕ) (b : Bytes) (v : Value) → decode_kind z coll k typ b ≡ ok v
    → depth v ≤ n
unfolding decode_kind depth fixed
decode_kind-depth z coll n hc collection typ b v h = hc b v h
decode_kind-depth z coll n hc _ typ b v h = ground arith

decode_levels-depth :
    (z : Zones) (n typ : ℕ) (b : Bytes) (v : Value) → decode_levels z n typ b ≡ ok v → depth v ≤ n
unfolding decode_levels
decode_levels-depth z zero typ b v h =
    decode_kind-depth z (λ _. err nested_too_deep) 0 (λ b' v' e. absurd (cc)) (kind_of typ) typ b v
      h
decode_levels-depth z (suc n) typ b v h =
    decode_kind-depth z (decode_collection (decode_levels z n)) (suc n)
      (decode_collection-depth n (decode_levels z n) (decode_levels-depth z n)) (kind_of typ) typ b
      v h

-- Whatever the bytes, collections of a decoded value are nested at most 32 deep.
pub decode_value-depth :
    (z : Zones) (typ : ℕ) (b : Bytes) (v : Value)
    → decode_value z typ b ≡ ok v
    → depth v ≤ max_collection_depth
unfolding decode_value
decode_value-depth z typ b v h = decode_levels-depth z 32 typ b v h
