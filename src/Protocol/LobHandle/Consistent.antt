-- ===== src/Protocol/LobHandle/Consistent.antt =====
-- The struct and the packed bytes of a handle agree, and `SetSize` keeps them so.
use gocubrid.Prelude.{
  ℤ, pos, ◌+◌, ◌^◌, ◌<◌, ◌≤◌, ◌≡◌, ap, ◌∙◌, sym, subst, ◌||◌, ◌++◌, length, length-append,
  length-take, length-drop, take, drop, take-append-drop, take-append_at, drop-append_at, drop-drop,
  ltb, ltb_ℤ, lt→ltb, take_all, pos_part, of_word, to_word, of_word-to_word, to_word-lt, FitsWord,
  if◌then◌else◌, arith,
}
use gocubrid.Errors.{locator_length, lob_handle_size}
use gocubrid.Exec.{Result, ok, err}
use gocubrid.Bytes.{Bytes, be_uint, be_bytes, be_uint-be_bytes, length-be_bytes}
use gocubrid.Protocol.Text.{trim_nul, trim_nul-append_zeros, EndsPlain, zeros}
use gocubrid.Protocol.LobHandle.{LobHandle, lob_handle_header, parse_lob_handle, set_size}

-- Reading the packed bytes again gives the struct.
abbrev pub IsConsistent : LobHandle → Type 0
IsConsistent h = parse_lob_handle h.raw ≡ ok h

-- The parts of a packed handle: type, size, and what stands from byte 12 on.
parse_parts : Bytes → Bytes → Bytes → Result LobHandle
parse_parts a s r =
    let loc_len = of_word (2 ^ 31) (be_uint (take 4 r)) in
    if ltb (12 + length r) lob_handle_header
    then err (lob_handle_size (12 + length r))
    else if ltb_ℤ loc_len (pos 1) || ltb (12 + length r) (lob_handle_header + pos_part loc_len)
    then err (locator_length loc_len (12 + length r))
    else ok (record {
      db_type = of_word (2 ^ 31) (be_uint a);
      size = of_word (2 ^ 63) (be_uint s);
      locator = trim_nul (take (pos_part loc_len) (drop 4 r));
      raw = a ++ (s ++ r);
    })

module _ (a s r : Bytes) (a_size : length a ≡ 4) (s_size : length s ≡ 8) where
  drop_twelve : drop 12 (a ++ (s ++ r)) ≡ r
  drop_twelve =
      sym (drop-drop 4 8 (a ++ (s ++ r)))
      ∙ ap (drop 8) (drop-append_at 4 a (s ++ r) a_size)
      ∙ drop-append_at 8 s r s_size

  drop_sixteen : drop 16 (a ++ (s ++ r)) ≡ drop 4 r
  drop_sixteen = sym (drop-drop 12 4 (a ++ (s ++ r))) ∙ ap (drop 4) drop_twelve

  parse-parts : parse_lob_handle (a ++ (s ++ r)) ≡ parse_parts a s r
  unfolding parse_lob_handle parse_parts
  parse-parts =
      let total : length (a ++ (s ++ r)) ≡ 12 + length r =
        omega (arith, length-append a (s ++ r), length-append s r) in
      rw (
        total,
        drop_twelve,
        drop_sixteen,
        take-append_at 4 a (s ++ r) a_size,
        drop-append_at 4 a (s ++ r) a_size,
        take-append_at 8 s r s_size,
      )

parts_raw :
    (raw : Bytes) → 16 ≤ length raw → raw ≡ take 4 raw ++ (take 8 (drop 4 raw) ++ drop 12 raw)
parts_raw raw h =
    sym (take-append-drop 4 raw)
    ∙ ap (λ t. take 4 raw ++ t)
        (sym (take-append-drop 8 (drop 4 raw))
          ∙ ap (λ t. take 8 (drop 4 raw) ++ t) (drop-drop 4 8 raw))

-- The new size goes into the struct and into the packed bytes, and nothing else changes.
parts_size :
    (a s s' r : Bytes) (h : LobHandle) (n : ℤ)
    → parse_parts a s r ≡ ok h
    → of_word (2 ^ 63) (be_uint s') ≡ n
    → parse_parts a s' r ≡ ok (record h { size = n; raw = a ++ (s' ++ r) })
unfolding parse_parts
parts_size a s s' r h n e size = ground arith

parse_lob_handle_inv :
    (b : Bytes) (h : LobHandle) → parse_lob_handle b ≡ ok h → (h.raw ≡ b) × (16 ≤ length b)
unfolding parse_lob_handle
parse_lob_handle_inv b h e = ground arith

-- A parsed handle is consistent, and keeps the bytes that it was parsed from.
pub parse_lob_handle-IsConsistent :
    (b : Bytes) (h : LobHandle) → parse_lob_handle b ≡ ok h → IsConsistent h × (h.raw ≡ b)
parse_lob_handle-IsConsistent b h e =
    let same = (parse_lob_handle_inv b h e).0 in
    (subst (λ t. parse_lob_handle t ≡ ok h) (sym same) e, same)

-- Setting a size keeps a handle consistent: a server that reads the packed bytes sees the new size.
pub set_size-IsConsistent :
    (n : ℤ) (h : LobHandle) → FitsWord (2 ^ 63) n → IsConsistent h → IsConsistent (set_size n h)
unfolding set_size
set_size-IsConsistent n h fits e =
    let enough = (parse_lob_handle_inv h.raw h e).1 in
    let a : Bytes = take 4 h.raw in
    let s : Bytes = take 8 (drop 4 h.raw) in
    let s' : Bytes = be_bytes 8 (to_word (2 ^ 63) n) in
    let r : Bytes = drop 12 h.raw in
    let a_size : length a ≡ 4 = omega (arith, length-take 4 h.raw) in
    let s_size : length s ≡ 8 = omega (arith, length-take 8 (drop 4 h.raw), length-drop 4 h.raw) in
    let value : of_word (2 ^ 63) (be_uint s') ≡ n =
      rw (be_uint-be_bytes 8 (to_word (2 ^ 63) n) (to_word-lt (2 ^ 63) n (omega arith)))
        (of_word-to_word (2 ^ 63) n fits) in
    let old : parse_parts a s r ≡ ok h =
      sym (parse-parts a s r a_size s_size)
      ∙ ap parse_lob_handle (sym (parts_raw h.raw enough))
      ∙ e in
    parse-parts a s' r a_size (length-be_bytes 8 (to_word (2 ^ 63) n))
    ∙ parts_size a s s' r h n old value

parts_locator :
    (a s locator : Bytes)
    → length locator + 1 < 2 ^ 31
    → EndsPlain locator
    → let r = be_bytes 4 (length locator + 1) ++ (locator ++ zeros 1) in
      parse_parts a s r
      ≡ ok (record {
        db_type = of_word (2 ^ 31) (be_uint a);
        size = of_word (2 ^ 63) (be_uint s);
        locator = locator;
        raw = a ++ (s ++ r);
      })
unfolding parse_parts
parts_locator a s locator small plain =
    let l : Bytes = be_bytes 4 (length locator + 1) in
    let text : Bytes = locator ++ zeros 1 in
    let front = length-be_bytes 4 (length locator + 1) in
    let size : length text ≡ length locator + 1 = omega (arith, length-append locator (zeros 1)) in
    let count : of_word (2 ^ 31) (length locator + 1) ≡ pos (length locator + 1) =
      unfold of_word in rw (lt→ltb _ _ small) in
    rw
      (
        take-append_at 4 l text front,
        drop-append_at 4 l text front,
        be_uint-be_bytes 4 (length locator + 1) (omega arith),
        count,
        take_all (length locator + 1) text (omega (arith, size)),
        trim_nul-append_zeros locator 1 plain,
      )
      (ground (arith, length-append l text, size, front))

-- A handle as the server packs it: type, size, and the locator with its NUL behind its length.
pub pack_handle : ℤ → ℤ → Bytes → Bytes
pack_handle typ size locator =
    be_bytes 4 (to_word (2 ^ 31) typ)
    ++ (be_bytes 8 (to_word (2 ^ 63) size)
        ++ (be_bytes 4 (length locator + 1) ++ (locator ++ zeros 1)))

-- Parsing what the server packed gives the type, the size and the locator.
pub parse_lob_handle-pack_handle :
    (typ size : ℤ) (locator : Bytes)
    → FitsWord (2 ^ 31) typ
    → FitsWord (2 ^ 63) size
    → length locator + 1 < 2 ^ 31
    → EndsPlain locator
    → parse_lob_handle (pack_handle typ size locator)
      ≡ ok (record {
        db_type = typ;
        size = size;
        locator = locator;
        raw = pack_handle typ size locator;
      })
unfolding pack_handle
parse_lob_handle-pack_handle typ size locator ht hs small plain = rw (
  parse-parts _ _ _ (length-be_bytes 4 _) (length-be_bytes 8 _),
  parts_locator _ _ locator small plain,
  be_uint-be_bytes 4 (to_word (2 ^ 31) typ) (to_word-lt (2 ^ 31) typ (omega arith)),
  be_uint-be_bytes 8 (to_word (2 ^ 63) size) (to_word-lt (2 ^ 63) size (omega arith)),
  of_word-to_word (2 ^ 31) typ ht,
  of_word-to_word (2 ^ 63) size hs,
)
