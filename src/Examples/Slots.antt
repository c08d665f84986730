-- ===== src/Examples/Slots.antt =====
-- A slot with two client ids, before a TWS that accepts, refuses, or has every id taken.
use Prim.Native.Nat.{◌^◌}
use bifrost_platform_plugin.Prelude.{
  ℕ, ◌+◌, ◌*◌, ◌<◌, ◌≡◌, ◌≢◌, ◌⊎◌, refl, [], ◌∷◌, true, false, none, some, pos, arith, min,
}
use bifrost_platform_plugin.Text.{txt, lower, lower_char, contains, starts_with}
use bifrost_platform_plugin.Float.{fin, zero_f}
use bifrost_platform_plugin.Connection.{
  connected, disconnected, list_accounts, TwsError, Tws, TwsSlotConfig, SlotConnection, Slot,
  new_slot, session_up, attempt, connect, enter_maintenance, reconnect_loop,
}
use bifrost_platform_plugin.Connection.Connect.{connect_settles}
use bifrost_platform_plugin.Connection.Reach.{Reach, here, next, dialled, entered}
use bifrost_platform_plugin.Connection.Automaton.{Run, down}
use bifrost_platform_plugin.Connection.Phases.{phase_of, acts_of, Reach-Run}
use bifrost_platform_plugin.Connection.Failover.{
  next_index, stale_error_rotates, Conflicts, all_conflicts_cycle,
}
use bifrost_platform_plugin.Connection.Backoff.{RefusesAll, IsDown, backoff_doubles}

-- The world counts the sessions.
abbrev pub accepting : Tws ℕ
accepting = record {
  open_session = λ w. (w, w + 1);
  connect_async = λ ib ip port cid w. ([], none, w);
  is_connected = λ ib w. true;
  managed = λ ib w. some (list_accounts (txt "U123" ∷ []));
  hang_up = λ ib w. w;
  current_time = λ ib w. (true, w);
  pause = λ ms w. ([], w);
  now = λ w. fin (pos w);
}

abbrev refusing : Tws ℕ
refusing = record accepting {
  connect_async = λ ib ip port cid w. ([], some (txt "refused"), w);
  is_connected = λ ib w. false;
}

abbrev timing_out : Tws ℕ
timing_out = record accepting {
  connect_async = λ ib ip port cid w. ([], some [], w);
  is_connected = λ ib w. false;
}

abbrev taken : TwsError
taken = record { req_id = pos 0; code = 326; msg = txt "client id is in use" }

abbrev pub conflicting : Tws ℕ
conflicting = record accepting {
  connect_async = λ ib ip port cid w. (taken ∷ [], some (txt "closed"), w);
  is_connected = λ ib w. false;
}

abbrev pub host_cfg : TwsSlotConfig
host_cfg = record {
  slot = txt "host";
  account_id = txt "U123";
  ip = txt "10.0.0.1";
  port = pos 7496;
  client_ids = pos 70 ∷ pos 71 ∷ [];
  has_market_data = true;
}

abbrev pub fresh_conn : SlotConnection
fresh_conn = record {
  state = disconnected;
  current_cid_index = 0;
  ib = none;
  last_message_at = zero_f;
  reconnects = 0;
  last_error = none;
  in_maintenance = false;
}

abbrev fresh : Slot ℕ
fresh = record { conn = fresh_conn; world = 0 }

connect_settles_example :
    (((connect accepting host_cfg fresh).0 ≡ true)
        × ((connect accepting host_cfg fresh).1.conn.state ≡ connected)
        × ((connect accepting host_cfg fresh).1.conn.ib ≢ none)
      ⊎ ((connect accepting host_cfg fresh).0 ≡ false)
        × ((connect accepting host_cfg fresh).1.conn.state ≡ disconnected)
        × ((connect accepting host_cfg fresh).1.conn.ib ≡ none))
    × ((connect accepting host_cfg fresh).1.conn.current_cid_index < 2)
    × ((connect accepting host_cfg fresh).1.conn.in_maintenance ≡ false)
connect_settles_example = connect_settles accepting host_cfg fresh refl (omega arith)

-- Connect, enter maintenance, try again, leave it, and check the session.
abbrev at_start : Slot ℕ
at_start = record { conn = new_slot; world = 0 }

abbrev dialled_once : Slot ℕ
dialled_once = (connect accepting host_cfg at_start).1

abbrev maintained : Slot ℕ
maintained = record dialled_once { conn = enter_maintenance dialled_once.conn }

abbrev dialled_again : Slot ℕ
dialled_again = (connect accepting host_cfg maintained).1

a_history : Reach accepting host_cfg at_start dialled_again
a_history = next (next (next here dialled) entered) dialled

abbrev blamed : Slot ℕ
blamed = record {
  conn = record fresh_conn { last_error = some (txt "Error 326, reqId 0: in use") };
  world = 0;
}

looks_taken : contains (txt "326") (lower (txt "Error 326, reqId 0: in use")) ≡ true
unfolding contains starts_with lower lower_char
looks_taken = refl

stale_error_rotates_example :
    (attempt timing_out host_cfg (pos 70) blamed).1.conn.current_cid_index
    ≡ next_index timing_out host_cfg 0
stale_error_rotates_example =
    stale_error_rotates timing_out host_cfg (pos 70) b'E' (txt "rror 326, reqId 0: in use") blamed 1
      refl looks_taken refl

all_taken : Conflicts conflicting host_cfg
all_taken ib ip port cid w = (taken, [], refl, refl)

fresh_down : session_up conflicting host_cfg none 0 ≡ false
unfolding session_up
fresh_down = refl

all_conflicts_cycle_example :
    ((connect conflicting host_cfg fresh).0 ≡ false)
    × ((connect conflicting host_cfg fresh).1.conn.current_cid_index ≡ 0)
all_conflicts_cycle_example =
    all_conflicts_cycle conflicting host_cfg fresh all_taken refl fresh_down (omega arith)

refuses : RefusesAll refusing
refuses ib ip port cid w = (txt "refused", refl)

fresh_IsDown : IsDown host_cfg fresh_conn
fresh_IsDown = record { state = refl; no_session = refl; flag = refl; in_range = omega arith }

backoff_doubles_example :
    (reconnect_loop refusing host_cfg (λ w. false) 3 1000 30000 1000 fresh).0
    ≡ min (1000 * 2 ^ 3) 30000
backoff_doubles_example =
    backoff_doubles refusing host_cfg 1000 30000 (λ w. false) 3 fresh (omega arith) (λ w. refl)
      refuses fresh_IsDown

Reach-Run_example : Run (acts_of accepting host_cfg a_history) down (phase_of dialled_again.conn)
Reach-Run_example = Reach-Run accepting host_cfg (omega arith) a_history
