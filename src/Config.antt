-- ===== src/Config.antt =====
-- cubrid/config.go: the configuration and `ParseDSN`. `net/url`, `time.ParseDuration` and
-- `strings.TrimSpace` of Go's library are parameters.
pub mod Hosts
pub mod Settings
pub mod Params
pub mod Parsed
use gocubrid.Prelude.{
  ℕ, ℤ, pos, Bool, true, false, ◌||◌, List, [], ◌∷◌, ◌++◌, length, Option, none, some, codes, ◌==◌,
  get_or, drop, ltb_ℤ, leb_ℤ, if◌then◌else◌,
}
use gocubrid.Errors.{
  Error, invalid_dsn, missing_host, bad_scheme, bad_database, bad_port, bad_fetch_size, bad_timeout,
  bad_ssl, bad_ssl_verify, unknown_parameter,
}
use gocubrid.Exec.{Result, ok, err, bind}
use gocubrid.Bytes.{Bytes, same_bytes, one_of}
use gocubrid.Config.Hosts.{default_port, contains, atoi, itoa, join_host_port, split_alt_host}

abbrev pub default_fetch_size : ℕ
default_fetch_size = 100

pub record Config : Type 0 where
  pub host : Bytes
  pub port : ℤ
  pub database : Bytes
  pub user : Bytes
  pub password : Bytes
  pub fetch_size : ℤ
  pub connect_timeout : ℤ
  pub alt_hosts : List Bytes
  pub ssl : Bool
  pub ssl_verify : Bool

-- A parameter of the query: its key, the values before the last one, and the last one.
pub record Param : Type 0 where
  pub key : Bytes
  pub earlier : List Bytes
  pub last : Bytes

-- What `ParseDSN` asks of a `url.URL`: user and password, and the query in the order in which the
-- map is walked.
pub record Url : Type 0 where
  pub scheme : Bytes
  pub hostname : Bytes
  pub port : Bytes
  pub path : Bytes
  pub user : Option (Bytes × Bytes)
  pub query : List Param

-- The parsers of Go's library: `url.Parse`, `time.ParseDuration` and `strings.TrimSpace`.
pub record Library : Type 0 where
  pub parse_url : Bytes → Option Url
  pub parse_duration : Bytes → Option ℤ
  pub trim_space : Bytes → Bytes

-- `strconv.ParseBool`
unfoldable pub parse_bool : Bytes → Option Bool
parse_bool s =
    if one_of s
      (codes "1" ∷ codes "t" ∷ codes "T" ∷ codes "true" ∷ codes "TRUE" ∷ codes "True" ∷ [])
    then some true
    else if one_of s
        (codes "0" ∷ codes "f" ∷ codes "F" ∷ codes "false" ∷ codes "FALSE" ∷ codes "False" ∷ [])
    then some false
    else none

-- `strings.Split(v, ",")`: never empty.
unfoldable pub split_commas : Bytes → List Bytes
split_commas [] = [] ∷ []
split_commas (b ∷ bs) = elim (split_commas bs) [
  | [] ↦ (b ∷ []) ∷ []
  | part ∷ parts ↦ if b == b',' then [] ∷ part ∷ parts else (b ∷ part) ∷ parts
]

-- One entry of altHosts, joined again.
unfoldable pub joined : Bytes × ℕ → Bytes
joined (host, port) = join_host_port host (itoa port)

-- What one parameter sets.
pub data Setting : Type 0 where
  fetch_size connect_timeout : ℤ → Setting
  ssl ssl_verify : Bool → Setting
  alt_hosts : List Bytes → Setting

module _ (lib : Library) where
  unfoldable pub alt_entries : List Bytes → Result (List Bytes)
  alt_entries [] = ok []
  alt_entries (e ∷ es) =
      bind (split_alt_host (lib.trim_space e))
        (λ r. bind (alt_entries es) (λ rest. ok (joined r ∷ rest)))

unfoldable pub set_fetch_size : Bytes → Option ℤ → Result Setting
set_fetch_size v none = err (bad_fetch_size v)
set_fetch_size v (some n) =
    if leb_ℤ n (pos 0) then err (bad_fetch_size v) else ok (Setting.fetch_size n)

unfoldable pub set_timeout : Bytes → Option ℤ → Result Setting
set_timeout v none = err (bad_timeout v)
set_timeout v (some d) =
    if ltb_ℤ d (pos 0) then err (bad_timeout v) else ok (Setting.connect_timeout d)

unfoldable pub set_flag : (Bytes → Error) → (Bool → Setting) → Bytes → Option Bool → Result Setting
set_flag e f v none = err (e v)
set_flag e f v (some b) = ok (f b)

-- The parameter names.
pub data Key : Type 0 where
  fetch_size connect_timeout ssl alt_hosts ssl_verify : Key

unfoldable pub key_of : Bytes → Option Key
key_of k =
    if same_bytes k (codes "fetch_size")
    then some Key.fetch_size
    else if same_bytes k (codes "connect_timeout")
    then some Key.connect_timeout
    else if same_bytes k (codes "ssl")
    then some Key.ssl
    else if same_bytes k (codes "altHosts")
    then some Key.alt_hosts
    else if same_bytes k (codes "ssl_verify")
    then some Key.ssl_verify
    else none

-- One branch of the switch.
unfoldable pub setting_of : Library → Option Key → Param → Result Setting
setting_of lib none p = err (unknown_parameter p.key)
setting_of lib (some Key.fetch_size) p = set_fetch_size p.last (atoi p.last)
setting_of lib (some Key.connect_timeout) p = set_timeout p.last (lib.parse_duration p.last)
setting_of lib (some Key.ssl) p = set_flag bad_ssl Setting.ssl p.last (parse_bool p.last)
setting_of lib (some Key.ssl_verify) p =
    set_flag bad_ssl_verify Setting.ssl_verify p.last (parse_bool p.last)
setting_of lib (some Key.alt_hosts) p =
    bind (alt_entries lib (split_commas p.last)) (λ hosts. ok (Setting.alt_hosts hosts))

-- What it does to the configuration: altHosts are appended, the others are assigned.
unfoldable pub update : Setting → Config → Config
update (Setting.fetch_size n) c = record c { fetch_size = n }
update (Setting.connect_timeout d) c = record c { connect_timeout = d }
update (Setting.ssl b) c = record c { ssl = b }
update (Setting.ssl_verify b) c = record c { ssl_verify = b }
update (Setting.alt_hosts hosts) c = record c { alt_hosts = c.alt_hosts ++ hosts }

-- `for k, vs := range u.Query()`
unfoldable pub apply_params : Library → List Param → Config → Result Config
apply_params lib [] c = ok c
apply_params lib (p ∷ ps) c =
    bind (setting_of lib (key_of p.key) p) (λ s. apply_params lib ps (update s c))

-- `strings.TrimPrefix(u.Path, "/")`
unfoldable pub trim_slash : Bytes → Bytes
trim_slash s = if get_or s 0 0 == b'/' then drop 1 s else s

abbrev port_result : Bytes → Option ℤ → Result ℤ
port_result p none = err (bad_port p)
port_result p (some n) = ok n

unfoldable pub url_port : Bytes → Result ℤ
url_port p = if length p == 0 then ok (pos default_port) else port_result p (atoi p)

unfoldable pub set_user : Option (Bytes × Bytes) → Config → Config
set_user none c = c
set_user (some (user, password)) c = record c { user = user; password = password }

-- The configuration before its port, database, user and parameters are read.
abbrev pub initial : Bytes → Config
initial host = record {
  host = host;
  port = pos default_port;
  database = [];
  user = codes "public";
  password = [];
  fetch_size = pos default_fetch_size;
  connect_timeout = pos 0;
  alt_hosts = [];
  ssl = false;
  ssl_verify = false;
}

unfoldable pub from_url : Library → Url → Result Config
from_url lib u =
    let database = trim_slash u.path in
    if same_bytes u.scheme (codes "cubrid")
    then (if length u.hostname == 0
        then err missing_host
        else bind (url_port u.port) (λ port.
          if (length database == 0) || contains b'/' database
          then err (bad_database u.path)
          else apply_params lib u.query
              (set_user u.user (record (initial u.hostname) { port = port; database = database }))))
    else err (bad_scheme u.scheme)

abbrev parsed_url : Library → Option Url → Result Config
parsed_url lib none = err invalid_dsn
parsed_url lib (some u) = from_url lib u

-- `ParseDSN`
unfoldable pub parse_dsn : Library → Bytes → Result Config
parse_dsn lib dsn = parsed_url lib (lib.parse_url dsn)
