-- ===== src/Examples/Config.antt =====
-- A DSN and its hosts, and the theorems on them. The parsers of Go's library know one text each.
use gocubrid.Prelude.{pos, ◌≡◌, ◌≤◌, refl, true, [], ◌∷◌, none, some, codes}
use gocubrid.Exec.{ok}
use gocubrid.Bytes.{same_bytes, one_of}
use gocubrid.Config.{
  Config, Param, Url, Library, initial, update, apply_params, parse_dsn, from_url, setting_of,
  key_of, set_fetch_size, set_flag, parse_bool, trim_slash, url_port, set_user,
}
use gocubrid.Config.Hosts.{
  atoi, read_number, read_digits, in_range, contains, index_of, last_index_of, split_host_port,
  split_colon, split_bracketed, split_at, split_entry, split_alt_host, with_port, join_host_port,
  itoa,
}
use gocubrid.Config.Hosts.Joined.{IsHost}
use gocubrid.Config.Hosts.FixedPoint.{split_alt_host-fixed}
use gocubrid.Config.Parsed.{IsParsed, parse_dsn-IsParsed}
use gocubrid.Config.Params.{DistinctKeys, apply_params-perm}
use mathlib.Core.List.Permᴰ

-- "[::1]:80" is the host "::1" with the port 80.
bracketed : split_alt_host (codes "[::1]:80") ≡ ok (codes "::1", 80)
unfolding split_alt_host split_entry split_host_port split_colon split_bracketed split_at with_port
    atoi read_number read_digits in_range contains index_of last_index_of
bracketed = refl

split_alt_host-fixed_example :
    IsHost (codes "::1")
    × (1 ≤ 80)
    × (80 ≤ 65535)
    × (split_alt_host (join_host_port (codes "::1") (itoa 80)) ≡ ok (codes "::1", 80))
split_alt_host-fixed_example = split_alt_host-fixed (codes "[::1]:80") (codes "::1") 80 bracketed

abbrev fetch_param : Param
fetch_param = record { key = codes "fetch_size"; earlier = []; last = codes "7" }

abbrev ssl_param : Param
ssl_param = record { key = codes "ssl"; earlier = []; last = codes "true" }

abbrev url : Url
url = record {
  scheme = codes "cubrid";
  hostname = codes "h";
  port = [];
  path = codes "/db";
  user = none;
  query = fetch_param ∷ ssl_param ∷ [];
}

abbrev pub library : Library
library = record { parse_url = λ dsn. some url; parse_duration = λ s. none; trim_space = λ s. s }

abbrev pub config : Config
config = record (initial (codes "h")) { database = codes "db"; fetch_size = pos 7; ssl = true }

pub parsed : parse_dsn library (codes "cubrid://h/db?fetch_size=7&ssl=true") ≡ ok config
unfolding parse_dsn from_url same_bytes trim_slash url_port contains apply_params key_of setting_of
    set_user set_fetch_size set_flag parse_bool one_of atoi read_number read_digits in_range update
parsed = refl

parse_dsn-IsParsed_example : IsParsed config
parse_dsn-IsParsed_example =
    parse_dsn-IsParsed library (codes "cubrid://h/db?fetch_size=7&ssl=true") config parsed

applied :
    apply_params library
      (fetch_param ∷ ssl_param ∷ [])
      (record (initial (codes "h")) { database = codes "db" })
    ≡ ok config
unfolding same_bytes apply_params key_of setting_of set_fetch_size set_flag parse_bool one_of atoi
    read_number read_digits in_range update
applied = refl

distinct : DistinctKeys (fetch_param ∷ ssl_param ∷ [])
distinct = ((λ e. cc, tt), (tt, tt))

apply_params-perm_example :
    apply_params library
      (ssl_param ∷ fetch_param ∷ [])
      (record (initial (codes "h")) { database = codes "db" })
    ≡ ok config
apply_params-perm_example =
    apply_params-perm library (record (initial (codes "h")) { database = codes "db" }) config
      distinct (Permᴰ.swap refl refl) applied
