-- ===== src/Protocol/Codec/DateTime.antt =====
-- The date and time layouts of codec.go: big-endian int16 fields, and a zone name behind them.
pub mod RoundTrip
use gocubrid.Prelude.{
  ℕ, ℤ, pos, ◌+◌, ◌-◌, ◌*◌, ◌/◌, ◌^◌, Bool, true, false, ◌||◌, List, [], ◌∷◌, ◌++◌, Option, none,
  some, length, take, drop, ltb, ◌==◌, if◌then◌else◌, of_word, to_word, ◌*ℤ◌,
}
use gocubrid.Errors.{short_buffer}
use gocubrid.Exec.{Result, ok, err, bind}
use gocubrid.Bytes.{Bytes, be_uint, be_bytes}
use gocubrid.Time.{Time, Location, utc, named, fixed, date}
use gocubrid.Protocol.Text.{trim_nul}
use gocubrid.Protocol.Codes.Types

-- The host's time zone database: the names that `time.LoadLocation` knows, the wall clock that
-- `time.Date` gives for fields in a known zone, which differs from the fields where the zone's clock
-- skips them, and the location that `time.Parse("-07:00", …)` gives a text.
pub record Zones : Type 0 where
  pub known : Bytes → Bool
  pub wall_clock : Bytes → Time → Time
  pub parse_offset : Bytes → Option Location

-- `int(int16(binary.BigEndian.Uint16(b[2*i:])))`
unfoldable pub short_at : ℕ → Bytes → ℤ
short_at i b = of_word (2 ^ 15) (be_uint (take 2 (drop (2 * i) b)))

unfoldable pub wanted : ℕ → ℕ
wanted typ =
    if typ == Types.date || typ == Types.time then 6 else if typ == Types.timestamp then 12 else 14

unfoldable pub fields_of : ℕ → Bytes → Time
unfolding short_at
fields_of typ b =
    let f = λ (i : ℕ). short_at i b in
    let z = pos 0 in
    if typ == Types.date
    then date (f 0) (f 1) (f 2) z z z z utc
    else if typ == Types.time
    then date (pos 1) (pos 1) (pos 1) (f 0) (f 1) (f 2) z utc
    else if typ == Types.timestamp
    then date (f 0) (f 1) (f 2) (f 3) (f 4) (f 5) z utc
    else date (f 0) (f 1) (f 2) (f 3) (f 4) (f 5) (f 6 *ℤ pos 1_000_000) utc

unfoldable pub decode_date_time : ℕ → Bytes → Result Time
decode_date_time typ b =
    if ltb (length b) (wanted typ) then err short_buffer else ok (fields_of typ b)

-- `zone[:i]` at the first space.
unfoldable pub until_space : Bytes → Bytes
until_space [] = []
until_space (c ∷ cs) = let rest = until_space cs in if c == b' ' then [] else c ∷ rest

offset_or_utc : Option Location → Location
offset_or_utc none = utc
offset_or_utc (some l) = l

unfoldable pub lookup_zone : Zones → Bytes → Location
unfolding offset_or_utc
lookup_zone z zone =
    let name = until_space zone in
    if length name == 0
    then utc
    else if z.known name
    then named name
    else offset_or_utc (z.parse_offset name)

-- The fields of a time, in a location: only a zone of the database may move them.
unfoldable pub in_location : Zones → Time → Location → Time
in_location z t utc = record t { location = utc }
in_location z t (fixed offset) = record t { location = fixed offset }
in_location z t (named zone) = record (z.wall_clock zone t) { location = named zone }

unfoldable pub decode_tz : Zones → ℕ → Bytes → Result Time
decode_tz z typ b =
    let short = typ == Types.timestamp_tz || typ == Types.timestamp_ltz in
    let n : ℕ = if short then 12 else 14 in
    let base = if short then Types.timestamp else Types.datetime in
    if ltb (length b) n
    then err short_buffer
    else bind (decode_date_time base (take n b)) λ t.
      let d =
        date t.year (pos t.month) (pos t.day) (pos t.hour) (pos t.minute) (pos t.second)
          (pos t.nanosecond) utc in
      ok (in_location z d (lookup_zone z (trim_nul (drop n b))))

-- `uint16(v)` of each field.
unfoldable pub encode_date_time : Time → Bytes
encode_date_time t =
    let put = λ (v : ℤ). be_bytes 2 (to_word (2 ^ 15) v) in
    put t.year
    ++ (put (pos t.month)
        ++ (put (pos t.day)
            ++ (put (pos t.hour)
                ++ (put (pos t.minute)
                    ++ (put (pos t.second) ++ put (pos (t.nanosecond / 1_000_000)))))))
