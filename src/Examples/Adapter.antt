-- ===== src/Examples/Adapter.antt =====
-- The adapter's theorems at concrete inputs.
use gocubrid.Prelude.{pos, ◌≡◌, true, false, [], ◌∷◌, none, refl, arith}
use gocubrid.Exec.{ok, err}
use gocubrid.Value.{Value}
use gocubrid.Session.Conn.{Conn, Exchange, valid}
use gocubrid.Adapter.{reset_session, begin_tx, repeatable_read, bind_args, values_to_named}
use gocubrid.Adapter.Pool.{IsReset, HasBegun, reset_session-IsReset, begin_tx-HasBegun}
use gocubrid.Adapter.Binding.Orders.{bind_args-perm}
use mathlib.Core.List.{Permᴰ}
use gocubrid.Errors.{eof}
use gocubrid.Protocol.Codec.DateTime.{Zones}
use gocubrid.Session.Rows.{Rows, Cursor}
use gocubrid.Adapter.Rows.{next_row}
use gocubrid.Session.Rows.Lost.{IsLost}
use gocubrid.Adapter.Rows.Lost.{next_row-lost}

abbrev no_zones : Zones
no_zones = record { known = λ _. false; wall_clock = λ _ t. t; parse_offset = λ _. none }

-- A connection in a transaction, whose peer is gone.
abbrev lone : Conn
lone = record {
  fetch_size = pos 100;
  version = 12;
  auto_commit = false;
  bad = false;
  closed = false;
  sent = [];
  inbox = [];
  script = [];
  close_error = none;
}

reset_session-IsReset_example : IsReset (reset_session lone)
reset_session-IsReset_example = reset_session-IsReset lone

begin_tx-HasBegun_example : HasBegun lone (begin_tx false repeatable_read lone)
begin_tx-HasBegun_example = begin_tx-HasBegun false repeatable_read lone

-- The second argument is given first.
bind_args-perm_example :
    bind_args (
      record { name = []; ordinal = pos 2; value = Value.bool true }
      ∷ record { name = []; ordinal = pos 1; value = Value.null }
      ∷ [])
    ≡ ok (Value.null ∷ Value.bool true ∷ [])
bind_args-perm_example =
    bind_args-perm (Value.null ∷ Value.bool true ∷ [])
      (unfold values_to_named in Permᴰ.swap refl refl)

-- The peer takes the request and closes the socket.
abbrev hang_up : Exchange
hang_up = record { write_error = none; arrives = []; stop = eof; context_error = none }

abbrev leaving : Conn
leaving = record lone { script = hang_up ∷ [] }

abbrev half_read : Rows
half_read = record {
  cols = [];
  tuples = [] ∷ [];
  position = 1;
  next_index = pos 2;
  total_rows = pos 2;
  fetched_all = false;
  closed = false;
  owns_stmt = false;
}

abbrev cursor : Cursor
cursor = record { handle = pos 1; is_call = false }

leaving-IsLost : IsLost leaving hang_up []
unfolding valid
leaving-IsLost = record {
  usable = refl;
  scripted = refl;
  written = refl;
  nothing = refl;
  ended = refl;
  alive = refl;
}

next_row-lost_example :
    ((next_row no_zones cursor (leaving, half_read)).0 ≡ err eof)
    × (valid (next_row no_zones cursor (leaving, half_read)).1.0 ≡ false)
next_row-lost_example =
    next_row-lost no_zones cursor leaving half_read hang_up [] (refl, refl, omega arith)
      leaving-IsLost
