-- ===== src/Protocol/LobHandle.antt =====
-- lob.go: packed LOB locators.
pub mod Consistent
use gocubrid.Prelude.{
  ℕ, ℤ, pos, ◌+◌, ◌-◌, ◌^◌, Bool, ◌||◌, ◌++◌, length, take, drop, ltb, ltb_ℤ, pos_part, of_word,
  to_word, if◌then◌else◌,
}
use gocubrid.Errors.{lob_handle_size, locator_length}
use gocubrid.Exec.{Result, ok, err}
use gocubrid.Bytes.{Bytes, be_uint, be_bytes}
use gocubrid.Protocol.Text.{trim_nul}

abbrev pub lob_max_chunk : ℕ
lob_max_chunk = 131_072

-- `lobHandleHeader`
abbrev pub lob_handle_header : ℕ
lob_handle_header = 16

pub record LobHandle : Type 0 where
  pub db_type : ℤ
  pub size : ℤ
  pub locator : Bytes
  pub raw : Bytes

-- `b[lo:hi]` as a big-endian number.
abbrev uint_at : ℕ → ℕ → Bytes → ℕ
uint_at lo hi b = be_uint (take (hi - lo) (drop lo b))

unfoldable pub parse_lob_handle : Bytes → Result LobHandle
parse_lob_handle b =
    let loc_len = of_word (2 ^ 31) (uint_at 12 16 b) in
    if ltb (length b) lob_handle_header
    then err (lob_handle_size (length b))
    else if ltb_ℤ loc_len (pos 1) || ltb (length b) (lob_handle_header + pos_part loc_len)
    then err (locator_length loc_len (length b))
    else ok (record {
      db_type = of_word (2 ^ 31) (uint_at 0 4 b);
      size = of_word (2 ^ 63) (uint_at 4 12 b);
      locator = trim_nul (take (pos_part loc_len) (drop lob_handle_header b));
      raw = b;
    })

-- `SetSize`: the struct and bytes 4 to 12 of the packed form.
unfoldable pub set_size : ℤ → LobHandle → LobHandle
set_size n h = record h {
  size = n;
  raw = take 4 h.raw ++ (be_bytes 8 (to_word (2 ^ 63) n) ++ drop 12 h.raw);
}
