-- ===== src/Config/Parsed.antt =====
-- What holds of a configuration that `ParseDSN` returns.
use gocubrid.Prelude.{
  ℕ, ℤ, pos, ◌≤◌, ◌≡◌, refl, subst, Bool, true, false, ◌||◌, Bool-cases, inl, inr, List, [], ◌∷◌,
  length, All, All-append, Option, none, some, ◌==◌, ltb_ℤ, leb_ℤ, if◌then◌else◌, arith, codes,
}
use gocubrid.Errors.{Error, bad_ssl, bad_ssl_verify, missing_host, bad_database, bad_scheme}
use gocubrid.Exec.{Result, ok, err, bind, bind-ok}
use gocubrid.Exec.Returns.{ok-injective}
use gocubrid.Bytes.{Bytes, same_bytes}
use gocubrid.Config.{
  Config, Param, Url, Library, Setting, Key, joined, alt_entries, set_fetch_size, set_timeout,
  set_flag, setting_of, key_of, update, apply_params, trim_slash, url_port, set_user, initial,
  from_url, parsed_url, parse_dsn, parse_bool,
}
use gocubrid.Config.Hosts.{contains, split_alt_host}
use gocubrid.Config.Hosts.FixedPoint.{split_alt_host-fixed}

-- An entry that the sweep over the hosts accepts, with the host and port that it is made of.
abbrev pub IsEntry : Bytes → Type 0
IsEntry e = (r : Bytes × ℕ) × (split_alt_host e ≡ ok r) × (e ≡ joined r)

-- Host, database, fetch size, timeout and alternative hosts are in order.
abbrev pub IsParsed : Config → Type 0
IsParsed c =
    (1 ≤ length c.host)
    × (1 ≤ length c.database)
    × (contains b'/' c.database ≡ false)
    × (leb_ℤ c.fetch_size (pos 0) ≡ false)
    × (ltb_ℤ c.connect_timeout (pos 0) ≡ false)
    × All IsEntry c.alt_hosts

abbrev IsSetting : Setting → Type 0
IsSetting (Setting.fetch_size n) = leb_ℤ n (pos 0) ≡ false
IsSetting (Setting.connect_timeout d) = ltb_ℤ d (pos 0) ≡ false
IsSetting (Setting.ssl b) = Unit
IsSetting (Setting.ssl_verify b) = Unit
IsSetting (Setting.alt_hosts hosts) = All IsEntry hosts

abbrev Good {ℓ} : {A : Type ℓ} → (A → Type 0) → Result A → Type 0
Good P (ok a) = P a
Good P (err e) = Unit

joined-IsEntry : (e : Bytes) (r : Bytes × ℕ) → split_alt_host e ≡ ok r → IsEntry (joined r)
unfolding joined
joined-IsEntry e (h, p) got =
    let (i, one, most, again) = split_alt_host-fixed e h p got in ((h, p), again, refl)

cons-Good :
    (e : Bytes) (r : Result (Bytes × ℕ)) (rest : Result (List Bytes))
    → split_alt_host e ≡ r
    → Good (All IsEntry) rest
    → Good (All IsEntry) (bind r (λ x. bind rest (λ es. ok (joined x ∷ es))))
cons-Good e (ok r) (ok es) got h = (joined-IsEntry e r got, h)
cons-Good e (ok r) (err x) got h = tt
cons-Good e (err x) rest got h = tt

alt_entries-Good : (lib : Library) (es : List Bytes) → Good (All IsEntry) (alt_entries lib es)
unfolding alt_entries
alt_entries-Good lib [] = tt
alt_entries-Good lib (e ∷ es) =
    cons-Good (lib.trim_space e) (split_alt_host (lib.trim_space e)) (alt_entries lib es) refl
      (alt_entries-Good lib es)

set_fetch_size-Good : (v : Bytes) (n : Option ℤ) → Good IsSetting (set_fetch_size v n)
unfolding set_fetch_size
set_fetch_size-Good v none = tt
set_fetch_size-Good v (some n) = elim (Bool-cases (leb_ℤ n (pos 0))) [
  | inl e ↦ rw (e) tt
  | inr e ↦ rw (e) e
]

set_timeout-Good : (v : Bytes) (d : Option ℤ) → Good IsSetting (set_timeout v d)
unfolding set_timeout
set_timeout-Good v none = tt
set_timeout-Good v (some d) = elim (Bool-cases (ltb_ℤ d (pos 0))) [
  | inl e ↦ rw (e) tt
  | inr e ↦ rw (e) e
]

set_flag-Good :
    (e : Bytes → Error) (f : Bool → Setting) (v : Bytes) (b : Option Bool)
    → ((b : Bool) → IsSetting (f b))
    → Good IsSetting (set_flag e f v b)
unfolding set_flag
set_flag-Good e f v none h = tt
set_flag-Good e f v (some b) h = h b

hosts-Good :
    (r : Result (List Bytes))
    → Good (All IsEntry) r
    → Good IsSetting (bind r (λ hosts. ok (Setting.alt_hosts hosts)))
hosts-Good (ok hosts) h = h
hosts-Good (err e) h = tt

setting_of-Good : (lib : Library) (k : Option Key) (p : Param) → Good IsSetting (setting_of lib k p)
unfolding setting_of
setting_of-Good lib none p = tt
setting_of-Good lib (some Key.fetch_size) p = set_fetch_size-Good p.last _
setting_of-Good lib (some Key.connect_timeout) p = set_timeout-Good p.last _
setting_of-Good lib (some Key.ssl) p =
    set_flag-Good bad_ssl Setting.ssl p.last (parse_bool p.last) (λ b. tt)
setting_of-Good lib (some Key.ssl_verify) p =
    set_flag-Good bad_ssl_verify Setting.ssl_verify p.last (parse_bool p.last) (λ b. tt)
setting_of-Good lib (some Key.alt_hosts) p = hosts-Good _ (alt_entries-Good lib _)

update-IsParsed : (s : Setting) (c : Config) → IsSetting s → IsParsed c → IsParsed (update s c)
unfolding update
update-IsParsed (Setting.fetch_size n) c h (i, d, o, f, w, es) = (i, d, o, h, w, es)
update-IsParsed (Setting.connect_timeout d') c h (i, d, o, f, w, es) = (i, d, o, f, h, es)
update-IsParsed (Setting.ssl b) c h i = i
update-IsParsed (Setting.ssl_verify b) c h i = i
update-IsParsed (Setting.alt_hosts hosts) c h (i, d, o, f, w, es) =
    (i, d, o, f, w, All-append IsEntry c.alt_hosts hosts es h)

apply_params-IsParsed :
    (lib : Library) (ps : List Param) (c c' : Config)
    → IsParsed c
    → apply_params lib ps c ≡ ok c'
    → IsParsed c'
unfolding apply_params
apply_params-IsParsed lib [] c c' i e = subst IsParsed (ok-injective e) i
apply_params-IsParsed lib (p ∷ ps) c c' i e =
    let (s, got, more) =
      bind-ok (setting_of lib (key_of p.key) p) (λ s. apply_params lib ps (update s c)) e in
    let good = subst (Good IsSetting) got (setting_of-Good lib (key_of p.key) p) in
    apply_params-IsParsed lib ps (update s c) c' (update-IsParsed s c good i) more

then-ok :
    (b : Bool) (e : Error) (r : Result Config) (c : Config)
    → (if b then r else err e) ≡ ok c
    → (b ≡ true) × (r ≡ ok c)
then-ok true e r c h = (refl, h)
then-ok false e r c h = absurd (cc)

else-ok :
    (b : Bool) (e : Error) (r : Result Config) (c : Config)
    → (if b then err e else r) ≡ ok c
    → (b ≡ false) × (r ≡ ok c)
else-ok true e r c h = absurd (cc)
else-ok false e r c h = (refl, h)

set_user-IsParsed : (u : Option (Bytes × Bytes)) (c : Config) → IsParsed c → IsParsed (set_user u c)
unfolding set_user
set_user-IsParsed none c i = i
set_user-IsParsed (some (user, password)) c i = i

from_url-IsParsed : (lib : Library) (u : Url) (c : Config) → from_url lib u ≡ ok c → IsParsed c
unfolding from_url
from_url-IsParsed lib u c e =
    let database = trim_slash u.path in
    let finish : ℤ → Result Config = λ port.
      if (length database == 0) || contains b'/' database
      then err (bad_database u.path)
      else apply_params lib u.query
          (set_user u.user (record (initial u.hostname) { port = port; database = database })) in
    let (schemed, e1) =
      then-ok (same_bytes u.scheme (codes "cubrid")) (bad_scheme u.scheme) _ c e in
    let (named, e2) = else-ok (length u.hostname == 0) missing_host _ c e1 in
    let (port, got, e3) = bind-ok (url_port u.port) finish e2 in
    let (plain, e4) =
      else-ok ((length database == 0) || contains b'/' database) (bad_database u.path) _ c e3 in
    let start : Config = record (initial u.hostname) { port = port; database = database } in
    apply_params-IsParsed lib u.query (set_user u.user start) c
      (set_user-IsParsed u.user start (ground arith, ground arith, ground arith, refl, refl, tt)) e4

parsed_url-IsParsed :
    (lib : Library) (u : Option Url) (c : Config) → parsed_url lib u ≡ ok c → IsParsed c
parsed_url-IsParsed lib none c e = absurd (cc)
parsed_url-IsParsed lib (some u) c e = from_url-IsParsed lib u c e

-- A configuration that `ParseDSN` returns names a host and exactly one database, has a positive
-- fetch size and no negative timeout, and each of its alternative hosts is accepted by the sweep over
-- the hosts, as the host and port that it was joined from.
pub parse_dsn-IsParsed :
    (lib : Library) (dsn : Bytes) (c : Config) → parse_dsn lib dsn ≡ ok c → IsParsed c
unfolding parse_dsn
parse_dsn-IsParsed lib dsn c e = parsed_url-IsParsed lib (lib.parse_url dsn) c e
