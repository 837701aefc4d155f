-- ===== src/Session/OneShot/Savepoints.antt =====
-- What can reach the SQL of a savepoint.
use gocubrid.Prelude.{ℕ, ◌<◌, ◌⊎◌, ◌≡◌, ◌≢◌, true, [], ◌∷◌, All, Bool-cases, inl, inr, arith}
use gocubrid.Bytes.{Bytes}
use gocubrid.Protocol.Codec.DateTime.{Zones}
use gocubrid.Session.Conn.{Conn}
use gocubrid.Session.Tx.{is_letter, is_word, all_word, is_identifier}
use gocubrid.Session.OneShot.{named_sql, check_savepoint_name, savepoint, rollback_to_savepoint}

-- No space, quote, hyphen, semicolon, and nothing outside ASCII.
abbrev pub IsPlain : ℕ → Type 0
IsPlain b = (b ≢ 32) × (b ≢ 34) × (b ≢ 39) × (b ≢ 45) × (b ≢ 59) × (b < 128)

word-IsPlain : (b : ℕ) → is_word b ≡ true → IsPlain b
unfolding is_word is_letter
word-IsPlain b h = (
  λ e. ground arith,
  λ e. ground arith,
  λ e. ground arith,
  λ e. ground arith,
  λ e. ground arith,
  ground arith,
)

all_word-IsPlain : (bs : Bytes) → all_word bs ≡ true → All IsPlain bs
unfolding all_word
all_word-IsPlain [] h = tt
all_word-IsPlain (b ∷ bs) h = (word-IsPlain b (ground arith), all_word-IsPlain bs (ground arith))

is_identifier-IsPlain : (name : Bytes) → is_identifier name ≡ true → All IsPlain name
unfolding is_identifier is_word
is_identifier-IsPlain [] h = tt
is_identifier-IsPlain (b ∷ bs) h =
    (word-IsPlain b (ground arith), all_word-IsPlain bs (ground arith))

named_sql-IsPlain :
    (z : Zones) (prefix name : Bytes) (c : Conn)
    → ((named_sql z prefix name c).1 ≡ c) ⊎ All IsPlain name
unfolding named_sql check_savepoint_name
named_sql-IsPlain z prefix name c = elim (Bool-cases (is_identifier name)) [
  | inl e ↦ inr (is_identifier-IsPlain name e)
  | inr e ↦ inl (simp (e))
]

-- Setting a savepoint and rolling back to one leave the connection untouched, with nothing sent,
-- unless every byte of the name is plain: no space, quote, hyphen or semicolon, and below 128.
pub savepoint-IsPlain :
    (z : Zones) (name : Bytes) (c : Conn)
    → (((savepoint z name c).1 ≡ c) ⊎ All IsPlain name)
      × (((rollback_to_savepoint z name c).1 ≡ c) ⊎ All IsPlain name)
unfolding savepoint rollback_to_savepoint
savepoint-IsPlain z name c = (named_sql-IsPlain z _ name c, named_sql-IsPlain z _ name c)
