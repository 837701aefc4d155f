-- ===== src/Config/Settings.antt =====
-- Settings of different keys do not disturb each other.
use gocubrid.Prelude.{
  ℤ, pos, Bool, true, false, codes, leb_ℤ, ltb_ℤ, if◌then◌else◌, ◌≡◌, ◌≢◌, refl, ap, sym, ◌∙◌,
  Option, none, some,
}
use gocubrid.Errors.{Error, bad_ssl, bad_ssl_verify}
use gocubrid.Exec.{ok, err, bind-ok}
use gocubrid.Exec.Returns.{ok-injective}
use gocubrid.Bytes.{Bytes, same_bytes, same_bytes_iff}
use gocubrid.Config.{
  Config, Param, Library, Setting, Key, set_fetch_size, set_timeout, set_flag, setting_of, key_of,
  update, alt_entries, split_commas, parse_bool,
}

-- The key that a setting comes from.
abbrev pub source : Setting → Key
source (Setting.fetch_size n) = Key.fetch_size
source (Setting.connect_timeout d) = Key.connect_timeout
source (Setting.ssl b) = Key.ssl
source (Setting.ssl_verify b) = Key.ssl_verify
source (Setting.alt_hosts hosts) = Key.alt_hosts

-- Settings of different keys commute.
pub update_comm :
    (s t : Setting) (c : Config)
    → source s ≢ source t
    → update s (update t c) ≡ update t (update s c)
unfolding update
update_comm (Setting.fetch_size n) (Setting.fetch_size m) c h = absurd (h refl)
update_comm (Setting.fetch_size n) (Setting.connect_timeout e) c h = refl
update_comm (Setting.fetch_size n) (Setting.ssl b) c h = refl
update_comm (Setting.fetch_size n) (Setting.ssl_verify b) c h = refl
update_comm (Setting.fetch_size n) (Setting.alt_hosts hs) c h = refl
update_comm (Setting.connect_timeout d) (Setting.fetch_size m) c h = refl
update_comm (Setting.connect_timeout d) (Setting.connect_timeout e) c h = absurd (h refl)
update_comm (Setting.connect_timeout d) (Setting.ssl b) c h = refl
update_comm (Setting.connect_timeout d) (Setting.ssl_verify b) c h = refl
update_comm (Setting.connect_timeout d) (Setting.alt_hosts hs) c h = refl
update_comm (Setting.ssl a) (Setting.fetch_size m) c h = refl
update_comm (Setting.ssl a) (Setting.connect_timeout e) c h = refl
update_comm (Setting.ssl a) (Setting.ssl b) c h = absurd (h refl)
update_comm (Setting.ssl a) (Setting.ssl_verify b) c h = refl
update_comm (Setting.ssl a) (Setting.alt_hosts hs) c h = refl
update_comm (Setting.ssl_verify a) (Setting.fetch_size m) c h = refl
update_comm (Setting.ssl_verify a) (Setting.connect_timeout e) c h = refl
update_comm (Setting.ssl_verify a) (Setting.ssl b) c h = refl
update_comm (Setting.ssl_verify a) (Setting.ssl_verify b) c h = absurd (h refl)
update_comm (Setting.ssl_verify a) (Setting.alt_hosts hs) c h = refl
update_comm (Setting.alt_hosts hs) (Setting.fetch_size m) c h = refl
update_comm (Setting.alt_hosts hs) (Setting.connect_timeout e) c h = refl
update_comm (Setting.alt_hosts hs) (Setting.ssl b) c h = refl
update_comm (Setting.alt_hosts hs) (Setting.ssl_verify b) c h = refl
update_comm (Setting.alt_hosts hs) (Setting.alt_hosts hs') c h = absurd (h refl)

some-injective {ℓ} : {A : Type ℓ} {a b : A} → some a ≡ some b → a ≡ b
some-injective h = cc

-- The spelling of a key.
abbrev pub name_of : Key → Bytes
name_of Key.fetch_size = codes "fetch_size"
name_of Key.connect_timeout = codes "connect_timeout"
name_of Key.ssl = codes "ssl"
name_of Key.alt_hosts = codes "altHosts"
name_of Key.ssl_verify = codes "ssl_verify"

choose-named :
    (b : Bool) (k : Bytes) (x key : Key) (rest : Option Key)
    → same_bytes k (name_of x) ≡ b
    → (rest ≡ some key → k ≡ name_of key)
    → (if b then some x else rest) ≡ some key
    → k ≡ name_of key
choose-named true k x key rest same h e =
    (same_bytes_iff k (name_of x)).0 same ∙ ap name_of (some-injective e)
choose-named false k x key rest same h e = h e

pub key_of-named : (k : Bytes) (key : Key) → key_of k ≡ some key → k ≡ name_of key
unfolding key_of
key_of-named k key e =
    choose-named _ k Key.fetch_size key _ refl
      (choose-named _ k Key.connect_timeout key _ refl (
        choose-named _ k Key.ssl key _ refl (
          choose-named _ k Key.alt_hosts key _ refl
            (choose-named _ k Key.ssl_verify key none refl (λ f. absurd (cc))))))
      e

chosen-source :
    (b : Bool) (e : Error) (t s : Setting)
    → (if b then err e else ok t) ≡ ok s
    → source s ≡ source t
chosen-source true e t s h = absurd (cc)
chosen-source false e t s h = ap source (sym (ok-injective h))

set_fetch_size-source :
    (v : Bytes) (n : Option ℤ) (s : Setting) → set_fetch_size v n ≡ ok s → source s ≡ Key.fetch_size
unfolding set_fetch_size
set_fetch_size-source v none s e = absurd (cc)
set_fetch_size-source v (some n) s e = chosen-source (leb_ℤ n (pos 0)) _ _ s e

set_timeout-source :
    (v : Bytes) (d : Option ℤ) (s : Setting)
    → set_timeout v d ≡ ok s
    → source s ≡ Key.connect_timeout
unfolding set_timeout
set_timeout-source v none s e = absurd (cc)
set_timeout-source v (some d) s e = chosen-source (ltb_ℤ d (pos 0)) _ _ s e

set_flag-source :
    (f : Bool → Setting) (k : Key) (e : Bytes → Error) (v : Bytes) (b : Option Bool) (s : Setting)
    → ((b : Bool) → source (f b) ≡ k)
    → set_flag e f v b ≡ ok s
    → source s ≡ k
unfolding set_flag
set_flag-source f k e v none s h g = absurd (cc)
set_flag-source f k e v (some b) s h g = ap source (sym (ok-injective g)) ∙ h b

pub setting_of-source :
    (lib : Library) (k : Option Key) (p : Param) (s : Setting)
    → setting_of lib k p ≡ ok s
    → k ≡ some (source s)
unfolding setting_of
setting_of-source lib none p s e = absurd (cc)
setting_of-source lib (some Key.fetch_size) p s e =
    ap some (sym (set_fetch_size-source p.last _ s e))
setting_of-source lib (some Key.connect_timeout) p s e =
    ap some (sym (set_timeout-source p.last _ s e))
setting_of-source lib (some Key.ssl) p s e =
    ap some
      (sym (set_flag-source Setting.ssl Key.ssl bad_ssl p.last (parse_bool p.last) s (λ b. refl) e))
setting_of-source lib (some Key.ssl_verify) p s e = ap some (
    sym (
      set_flag-source Setting.ssl_verify Key.ssl_verify bad_ssl_verify p.last (parse_bool p.last) s
        (λ b. refl) e))
setting_of-source lib (some Key.alt_hosts) p s e =
    let (hosts, got, same) = bind-ok (alt_entries lib (split_commas p.last)) _ e in
    ap some (ap source (ok-injective same))
