-- ===== src/Config/Hosts.antt =====
-- `splitAltHost` of cubrid/config.go, over `net.SplitHostPort`, `net.JoinHostPort`, `strconv.Atoi`
-- and `strconv.Itoa` of Go's library.
pub mod Digits
pub mod Search
pub mod Joined
pub mod FixedPoint
use gocubrid.Prelude.{
  ℕ, zero, suc, ℤ, pos, negsuc, ◌+◌, ◌-◌, ◌*◌, ◌/◌, ◌%◌, ◌^◌, Bool, true, false, ◌||◌, ◌&&◌, List,
  [], ◌∷◌, ◌++◌, length, get_or, take, drop, Option, none, some, ltb, leb, ◌==◌, if◌then◌else◌,
}
use gocubrid.Errors.{Error, alt_host_form, alt_host_empty, alt_host_bracket, alt_host_port}
use gocubrid.Exec.{Result, ok, err}
use gocubrid.Bytes.{Bytes}

abbrev pub default_port : ℕ
default_port = 33000

-- `strings.IndexByte` and `strings.LastIndexByte`
unfoldable pub index_of : ℕ → Bytes → Option ℕ
index_of c [] = none
index_of c (b ∷ bs) =
    if b == c then some 0 else elim (index_of c bs) [ some i ↦ some (suc i) | none ↦ none ]

unfoldable pub last_index_of : ℕ → Bytes → Option ℕ
last_index_of c [] = none
last_index_of c (b ∷ bs) = elim (last_index_of c bs) [
  | some i ↦ some (suc i)
  | none ↦ if b == c then some 0 else none
]

unfoldable pub contains : ℕ → Bytes → Bool
contains c [] = false
contains c (b ∷ bs) = (b == c) || contains c bs

-- What `SplitHostPort` gives: host and port, the error "missing port in address", or another one.
pub data Split : Type 0 where
  parts : Bytes → Bytes → Split
  missing_port other_error : Split

-- The checks for stray brackets: from `j` on for '[' and from `k` on for ']'.
unfoldable pub split_at : Bytes → ℕ → Bytes → ℕ → ℕ → Split
split_at s i host j k =
    if contains b'[' (drop j s) || contains b']' (drop k s)
    then other_error
    else parts host (drop (suc i) s)

-- An address that begins with '[', whose last colon stands at `i`.
unfoldable pub split_bracketed : Bytes → ℕ → Option ℕ → Split
split_bracketed s i none = other_error
split_bracketed s i (some end) =
    if suc end == length s
    then missing_port
    else if suc end == i
    then split_at s i (take (end - 1) (drop 1 s)) 1 (suc end)
    else if get_or s (suc end) 0 == b':'
    then other_error
    else missing_port

unfoldable pub split_colon : Bytes → Option ℕ → Split
split_colon s none = missing_port
split_colon s (some i) =
    if get_or s 0 0 == b'['
    then split_bracketed s i (index_of b']' s)
    else if contains b':' (take i s)
    then other_error
    else split_at s i (take i s) 0 0

-- `net.SplitHostPort`
unfoldable pub split_host_port : Bytes → Split
split_host_port s = split_colon s (last_index_of b':' s)

-- `net.JoinHostPort`
unfoldable pub join_host_port : Bytes → Bytes → Bytes
join_host_port host port =
    if contains b':' host then b'[' ∷ host ++ b']' ∷ b':' ∷ port else host ++ b':' ∷ port

abbrev pub is_digit : ℕ → Bool
is_digit c = leb b'0' c && leb c b'9'

-- The number that decimal digits spell, behind `n`.
unfoldable pub read_digits : ℕ → Bytes → Option ℕ
read_digits n [] = some n
read_digits n (c ∷ cs) =
    let rest = read_digits (n * 10 + (c - b'0')) cs in if is_digit c then rest else none

unfoldable pub read_number : Bytes → Option ℕ
read_number [] = none
read_number (c ∷ cs) = read_digits 0 (c ∷ cs)

-- An int has 64 bits.
unfoldable pub in_range : Bool → Option ℕ → Option ℤ
in_range negative none = none
in_range false (some n) = if ltb n (2 ^ 63) then some (pos n) else none
in_range true (some zero) = some (pos 0)
in_range true (some (suc n)) = if ltb n (2 ^ 63) then some (negsuc n) else none

-- `strconv.Atoi`
unfoldable pub atoi : Bytes → Option ℤ
atoi [] = none
atoi (c ∷ cs) =
    if c == b'-'
    then in_range true (read_number cs)
    else if c == b'+'
    then in_range false (read_number cs)
    else in_range false (read_number (c ∷ cs))

-- `strconv.Itoa` of a number that is not negative: one digit for each unit of fuel, and `n + 1` of
-- it is enough.
unfoldable pub put_digits : ℕ → ℕ → Bytes → Bytes
put_digits zero n tail = tail
put_digits (suc fuel) n tail =
    let digits = (n % 10 + b'0') ∷ tail in
    let more = put_digits fuel (n / 10) digits in if n / 10 == 0 then digits else more

unfoldable pub itoa : ℕ → Bytes
itoa n = put_digits (suc n) n []

-- The same of any integer.
unfoldable pub itoa_ℤ : ℤ → Bytes
itoa_ℤ (pos n) = itoa n
itoa_ℤ (negsuc n) = b'-' ∷ itoa (suc n)

-- An explicit port is a number from 1 to 65535.
unfoldable pub with_port : Bytes → Bytes → Option ℤ → Result (Bytes × ℕ)
with_port s host none = err (alt_host_port s)
with_port s host (some (negsuc n)) = err (alt_host_port s)
with_port s host (some (pos n)) =
    if (n == 0) || ltb 65535 n then err (alt_host_port s) else ok (host, n)

-- `strings.HasPrefix(host, "[") && strings.HasSuffix(host, "]")`, whose brackets are dropped.
unfoldable pub strip_brackets : Bytes → Bytes
strip_brackets s =
    if (get_or s 0 0 == b'[') && (get_or s (length s - 1) 0 == b']')
    then take (length s - 2) (drop 1 s)
    else s

-- A bare host gets the default port.
unfoldable pub bare_host : Bytes → Bytes → Result (Bytes × ℕ)
bare_host s host =
    if length host == 0
    then err (alt_host_empty s)
    else if contains b'[' host || contains b']' host
    then err (alt_host_bracket s)
    else ok (host, default_port)

unfoldable pub split_entry : Bytes → Split → Result (Bytes × ℕ)
split_entry s other_error = err (alt_host_form s)
split_entry s missing_port = bare_host s (strip_brackets s)
split_entry s (parts host port) =
    if length host == 0 then err (alt_host_empty s) else with_port s host (atoi port)

-- `splitAltHost`
unfoldable pub split_alt_host : Bytes → Result (Bytes × ℕ)
split_alt_host s = split_entry s (split_host_port s)
