-- ===== src/Protocol/Handshake/Block.antt =====
-- The greeting's ten bytes and the layout of the auth block.
use gocubrid.Prelude.{
  ℕ, zero, suc, ◌+◌, ◌-◌, ◌<◌, ◌≤◌, ◌≡◌, refl, ap, ◌∙◌, sym, [], ◌∷◌, ◌++◌, Option, none, some,
  length, length-append, length-replicate, drop, take-append_at, drop-append_at, drop-drop,
  take_all, append_assoc, append-nil, min, ltb, ◌&&◌, lt→leb, le→leb, arith,
}
use gocubrid.Errors.{Field, dbname, user, password, url, field_too_long}
use gocubrid.Exec.{ok, err, is_ok}
use gocubrid.Bytes.{Bytes}
use gocubrid.Protocol.Text.{zeros}
use gocubrid.Protocol.Handshake.{copy_range, put, put_session, db_info}

-- A field of `n` bytes: the text, then NULs.
abbrev pub padded : ℕ → Bytes → Bytes
padded n s = s ++ zeros (n - length s)

pub length-padded : (n : ℕ) (s : Bytes) → length s ≤ n → length (padded n s) ≡ n
length-padded n s h =
    omega (arith, length-append s (zeros (n - length s)), length-replicate {A = ℕ} (n - length s) 0)

zero-add-sym : (n : ℕ) → n ≡ zero + n
zero-add-sym n = omega arith

suc-add-sym : (m n : ℕ) → suc (m + n) ≡ suc m + n
suc-add-sym m n = omega arith

zeros-append : (m n : ℕ) → zeros m ++ zeros n ≡ zeros (m + n)
zeros-append zero n = ap zeros (zero-add-sym n)
zeros-append (suc m) n = ap (λ t. 0 ∷ t) (zeros-append m n) ∙ ap zeros (suc-add-sym m n)

drop-zeros : (m n : ℕ) → drop m (zeros (m + n)) ≡ zeros n
drop-zeros m n =
    ap (drop m) (sym (zeros-append m n))
    ∙ drop-append_at m (zeros m) (zeros n) (length-replicate m 0)

module _ (front s : Bytes) (lo w k : ℕ) (e : length front ≡ lo) where
  drop-front :
      length s ≤ w → drop (lo + length s) (front ++ zeros (w + k)) ≡ zeros (w - length s) ++ zeros k
  drop-front h =
      let total : w + k ≡ length s + (w - length s + k) = omega arith in
      sym (drop-drop lo (length s) (front ++ zeros (w + k)))
      ∙ ap (drop (length s)) (drop-append_at lo front (zeros (w + k)) e)
      ∙ ap (λ (n : ℕ). drop (length s) (zeros n)) total
      ∙ drop-zeros (length s) (w - length s + k)
      ∙ sym (zeros-append (w - length s) k)

  -- Copying a text into a zeroed range behind `front`.
  copy_range-zeros :
      length s ≤ w
      → copy_range lo (lo + w) s (front ++ zeros (w + k)) ≡ (front ++ padded w s) ++ zeros k
  unfolding copy_range
  copy_range-zeros h =
      let count : min (lo + w - lo) (length s) ≡ length s = omega arith in
      rw
        (
          count,
          take-append_at lo front (zeros (w + k)) e,
          take_all (length s) s (omega arith),
          drop-front h,
        )
        (simp append_assoc)

  put-zeros :
      (field : Field)
      → length s < w
      → put lo (lo + w) s field (front ++ zeros (w + k)) ≡ ok ((front ++ padded w s) ++ zeros k)
  unfolding put
  put-zeros field h =
      rw (lt→leb (lo + w - lo) (length s) (omega arith)) (ap ok (copy_range-zeros (omega arith)))

  put_too_long :
      (field : Field) (b : Bytes)
      → w ≤ length s
      → put lo (lo + w) s field b ≡ err (field_too_long field (w - 1))
  unfolding put
  put_too_long field b h =
      let width : lo + w - lo ≡ w = omega arith in rw (width, le→leb w (length s) h)

abbrev pub session_text : Option Bytes → Bytes
session_text none = []
session_text (some sid) = sid

put_session-zeros :
    (front : Bytes) (session : Option Bytes)
    → length front ≡ 608
    → length (session_text session) ≤ 20
    → put_session session (front ++ zeros (20 + 0)) ≡ front ++ padded 20 (session_text session)
unfolding put_session
put_session-zeros front none e h = refl
put_session-zeros front (some sid) e h =
    copy_range-zeros front sid 608 20 0 e h ∙ append-nil (front ++ padded 20 sid)

module _ (db usr pass link : Bytes) (db_fits : length db < 32) (usr_fits : length usr < 32)
    (pass_fits : length pass < 32) (link_fits : length link < 512) where
  abbrev first : Bytes
  first = padded 32 db

  abbrev second : Bytes
  second = first ++ padded 32 usr

  abbrev third : Bytes
  third = second ++ padded 32 pass

  length-first : length first ≡ 32
  length-first = length-padded 32 db (omega arith)

  length-second : length second ≡ 64
  length-second =
      omega (
        arith,
        length-append first (padded 32 usr),
        length-first,
        length-padded 32 usr (omega arith),
      )

  length-third : length third ≡ 96
  length-third = omega (
    arith,
    length-append second (padded 32 pass),
    length-second,
    length-padded 32 pass (omega arith),
  )

  length-fourth : length (third ++ padded 512 link) ≡ 608
  length-fourth = omega (
    arith,
    length-append third (padded 512 link),
    length-third,
    length-padded 512 link (omega arith),
  )

  -- When every field is shorter than its slot, the block is the five fields in order, each padded
  -- with NULs to its width; without a session id the last 20 bytes are NULs.
  pub db_info_layout :
      (session : Option Bytes)
      → length (session_text session) ≤ 20
      → db_info db usr pass link session
        ≡ ok (
            padded 32 db
            ++ (padded 32 usr
                ++ (padded 32 pass ++ (padded 512 link ++ padded 20 (session_text session)))))
  unfolding db_info
  db_info_layout session h =
      rw
        (
          put-zeros [] db 0 32 596 refl dbname db_fits,
          put-zeros first usr 32 32 564 length-first user usr_fits,
          put-zeros second pass 64 32 532 length-second password pass_fits,
          put-zeros third link 96 512 20 length-third url link_fits,
          put_session-zeros (third ++ padded 512 link) session length-fourth h,
        )
        (simp append_assoc)

-- The block is built exactly when every field fits, a terminating NUL included.
pub db_info_ok :
    (db usr pass link : Bytes) (session : Option Bytes)
    → is_ok (db_info db usr pass link session)
      ≡ (ltb (length db) 32 && ltb (length usr) 32 && ltb (length pass) 32 && ltb (length link) 512)
unfolding db_info put
db_info_ok db usr pass link session = ground arith
