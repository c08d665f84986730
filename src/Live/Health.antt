-- ===== src/Live/Health.antt =====
-- _health_loop: what a round checks, heals and reports.
use bifrost_platform_plugin.Prelude.{
  ℕ, zero, suc, ◌+◌, ◌%◌, Bool, true, false, ◌==◌, List, [], ◌∷◌, Option, none, some, if◌then◌else◌,
  pos,
}
use bifrost_platform_plugin.Text.{Text, txt}
use bifrost_platform_plugin.Float.{Float, max_f, zero_f}
use bifrost_platform_plugin.Effects.{
  Outcome, returned, Io, pure, continue_with, for_each, ◌>>=◌, ◌>>◌, Env,
}
use bifrost_platform_plugin.Json.{Json, boolean, integer, number, string, Dict, merge, Python}
use bifrost_platform_plugin.Redis.{Redis}
use bifrost_platform_plugin.Writer.{
  Writer, write_ingestor_health, write_account_health, write_operator_health, write_plugin_health,
}
use bifrost_platform_plugin.Connection.{
  ConnectionState, connected, disconnected, reconnecting, maintenance, Tws, TwsSlotConfig,
  SlotConnection, Slot, is_connected_state, sync_connection_state, verify_api_alive,
}
use bifrost_platform_plugin.Live.State.{Live, Settings, Gate, LiveIo, find_slot, state_of}
use bifrost_platform_plugin.Live.SelfHeal.{
  Healed, done, exited, maybe_self_heal_snapshot_stale, check_opt_cache_liveness,
}
use bifrost_platform_plugin.Live.Commands.{health_dict, is_present, cid_json}

unfoldable pub message_time : Option (TwsSlotConfig × SlotConnection) → Float
message_time none = zero_f
message_time (some (cfg, sc)) = sc.last_message_at

-- host.client_id if host else 0
unfoldable pub cid_or_zero : Option (TwsSlotConfig × SlotConnection) → Json
cid_or_zero none = integer (pos 0)
cid_or_zero (some slot) = cid_json (some slot)

unfoldable pub reconnects_of : Option (TwsSlotConfig × SlotConnection) → ℕ
reconnects_of none = 0
reconnects_of (some (cfg, sc)) = sc.reconnects

-- ConnectionState's values
unfoldable pub state_text : ConnectionState → Text
state_text connected = txt "connected"
state_text disconnected = txt "disconnected"
state_text reconnecting = txt "reconnecting"
state_text maintenance = txt "maintenance"

-- The later of the last messages of the two slots.
unfoldable pub last_any : Live → Float
last_any live =
    max_f (message_time (find_slot (txt "host") live.slots))
      (message_time (find_slot (txt "secondary") live.slots))

-- `host_ok` and `sec_ok` were read before the self-healing.
unfoldable pub ingestor_fields : Bool → Live → Dict
ingestor_fields host_ok live =
    let host = find_slot (txt "host") live.slots in
    (txt "connected", boolean host_ok)
    ∷ (txt "client_id", cid_or_zero host)
    ∷ (txt "last_msg_ts", number (message_time host))
    ∷ (txt "reconnects", integer (pos (reconnects_of host)))
    ∷ (txt "mode", string (txt "live"))
    ∷ []

unfoldable pub account_fields : Bool → Bool → Live → Dict
account_fields host_ok sec_ok live =
    let host = find_slot (txt "host") live.slots in
    let sec = find_slot (txt "secondary") live.slots in
    (txt "host_connected", boolean host_ok)
    ∷ (txt "host_client_id", cid_or_zero host)
    ∷ (txt "secondary_connected", boolean sec_ok)
    ∷ (txt "secondary_present", boolean (is_present sec))
    ∷ (txt "secondary_client_id", cid_or_zero sec)
    ∷ (txt "last_msg_ts", number (last_any live))
    ∷ (txt "mode", string (txt "live"))
    ∷ []

unfoldable pub plugin_fields : TwsSlotConfig → SlotConnection → Dict
plugin_fields cfg sc =
    (txt "slot", string cfg.slot)
    ∷ (txt "client_id", cid_json (some (cfg, sc)))
    ∷ (txt "mode", string (txt "live"))
    ∷ []

module _ {W : Type 0} (rds : Redis W) (py : Python) (env : Env W) (tws : Tws W) (wr : Writer)
    (settings : Settings) where
  -- `for sc in self._slots.values(): sc.sync_connection_state()`
  unfoldable pub sync_slots :
      List (TwsSlotConfig × SlotConnection) → W → List (TwsSlotConfig × SlotConnection) × W
  sync_slots [] w = ([], w)
  sync_slots ((cfg, sc) ∷ slots) w =
      let s = (sync_connection_state tws cfg (record { conn = sc; world = w })).1 in
      let rest = sync_slots slots s.world in ((cfg, s.conn) ∷ rest.0, rest.1)

  unfoldable pub verify_one : TwsSlotConfig → Slot W → Slot W
  verify_one cfg s = if is_connected_state s.conn.state then (verify_api_alive tws cfg s).1 else s

  unfoldable pub verify_slots :
      List (TwsSlotConfig × SlotConnection) → W → List (TwsSlotConfig × SlotConnection) × W
  verify_slots [] w = ([], w)
  verify_slots ((cfg, sc) ∷ slots) w =
      let s = verify_one cfg (record { conn = sc; world = w }) in
      let rest = verify_slots slots s.world in ((cfg, s.conn) ∷ rest.0, rest.1)

  unfoldable pub check_slots : Bool → Gate W → Gate W
  check_slots verify (live, w) =
      let synced = sync_slots live.slots w in
      let checked = verify_slots synced.0 synced.1 in
      if verify
      then (record live { slots = checked.0 }, checked.1)
      else (record live { slots = synced.0 }, synced.1)

  -- `if tick % verify_every == 0: await self._maybe_self_heal_snapshot_stale(host_ok)`
  unfoldable pub heal_when : Bool → LiveIo W Healed
  heal_when false g = (returned done, g)
  heal_when true g =
      maybe_self_heal_snapshot_stale rds py env tws wr settings
        (state_of (find_slot (txt "host") g.0.slots)) g

  unfoldable pub watch_opt_cache : Gate W → Gate W
  watch_opt_cache (live, w) =
      ((check_opt_cache_liveness rds py env tws wr settings (env.now w) live).1, w)

  unfoldable pub write_slot_health : TwsSlotConfig × SlotConnection → Io W (Unit {0})
  write_slot_health (cfg, sc) =
      write_plugin_health rds py env wr cfg.account_id (state_text sc.state) (plugin_fields cfg sc)

  unfoldable pub operator_fields : Float → Live → Dict
  operator_fields now live =
      merge (health_dict py now live) ((txt "last_msg_ts", number (last_any live)) ∷ [])

  unfoldable pub report_operator : Live → Io W (Unit {0})
  report_operator live w = write_operator_health rds py env wr (operator_fields (env.now w) live) w

  -- The health of the gateway and of each slot.
  unfoldable pub report : Bool → Bool → Live → Io W (Unit {0})
  report host_ok sec_ok live =
      write_ingestor_health rds py env wr (ingestor_fields host_ok live)
      >> (write_account_health rds py env wr (account_fields host_ok sec_ok live)
          >> (report_operator live >> for_each write_slot_health live.slots))

  -- os._exit(1) ends the round in the middle.
  unfoldable pub report_after : Bool → Bool → Healed → LiveIo W Healed
  report_after host_ok sec_ok exited g = (returned exited, g)
  report_after host_ok sec_ok done g =
      let watched = watch_opt_cache g in
      let told = report host_ok sec_ok watched.0 watched.1 in
      continue_with (λ u. pure done) told.0 (watched.0, told.1)

  -- One round with its number, which counts from 1; every third also probes the sessions.
  unfoldable pub health_round : ℕ → LiveIo W Healed
  health_round tick g =
      let verify = tick % 3 == 0 in
      let checked = check_slots verify g in
      (heal_when verify
          >>= report_after (state_of (find_slot (txt "host") checked.0.slots))
              (state_of (find_slot (txt "secondary") checked.0.slots)))
        checked

  -- After a round: the next one, unless the process has ended or an exception leaves the loop.
  unfoldable pub go_on : (Gate W → Outcome Healed × Gate W) → Outcome Healed → LiveIo W Healed
  go_on more (returned done) (live, w) = more (live, env.sleep 10 w)
  go_on more r g = (r, g)

  -- At most `fuel` rounds from the number `tick` on, while the stop event is not set.
  unfoldable pub health_loop : ℕ → ℕ → LiveIo W Healed
  health_loop zero tick g = (returned done, g)
  health_loop (suc fuel) tick g =
      let r = health_round (tick + 1) g in
      let more = go_on (health_loop fuel (tick + 1)) r.0 r.1 in
      if env.stopped g.1 then (returned done, g) else more
