-- ===== src/Connection/Defs/Calls.antt =====
-- The methods of SlotConnection.
use bifrost_platform_plugin.Prelude.{
  ℤ, ℕ, zero, suc, ◌+◌, ◌*◌, ◌%◌, Bool, true, false, not, ◌||◌, Option, none, some, min, length,
  if◌then◌else◌,
}
use bifrost_platform_plugin.Text.{Text, txt}
use bifrost_platform_plugin.Connection.Defs.State.{
  TwsSlotConfig, Tws, Slot, connected, disconnected, reconnecting, is_connected_state,
  managed_accounts, is_empty, client_id, or_blank, is_client_id_conflict, note_errors, or_else,
  or_last,
}

module _ {W : Type 0} (tws : Tws W) (cfg : TwsSlotConfig) where
  unfoldable pub note_message : Slot W → Slot W
  note_message s = record s { conn = record s.conn { last_message_at = tws.now s.world } }

  unfoldable pub session_up : Option ℕ → W → Bool
  session_up none w = false
  session_up (some ib) w = tws.is_connected ib w

  unfoldable pub sync_connection_state : Slot W → Bool × Slot W
  sync_connection_state s =
      if not (is_connected_state s.conn.state)
      then (false, s)
      else if not (session_up s.conn.ib s.world)
      then (false, record s { conn = record s.conn { ib = none; state = disconnected } })
      else (true, s)

  unfoldable pub hang_up_if : Option ℕ → W → W
  hang_up_if none w = w
  hang_up_if (some ib) w = tws.hang_up ib w

  unfoldable pub disconnect : Slot W → Slot W
  disconnect s = record {
    conn = record s.conn { ib = none; state = disconnected };
    world = hang_up_if s.conn.ib s.world;
  }

  -- After the state was synchronised: the probe of the session.
  unfoldable pub probe : Option ℕ → Slot W → Bool × Slot W
  probe none s = (false, s)
  probe (some ib) s =
      let (answered, w) = tws.current_time ib s.world in
      let s' = record s { world = w } in
      if answered then (true, note_message s') else (false, disconnect s')

  unfoldable pub verify_api_alive : Slot W → Bool × Slot W
  verify_api_alive s =
      let (up, s') = sync_connection_state s in if up then probe s'.conn.ib s' else (false, s')

  -- `for _ in range(20)`: waits until the session shows an account.
  unfoldable pub await_accounts : ℕ → ℕ → Slot W × Bool → Slot W × Bool
  await_accounts zero ib s = s
  await_accounts (suc rounds) ib (s, cid_conflict) =
      let (errors, w) = tws.pause 250 s.world in
      let (sc, conflict) = note_errors errors (s.conn, cid_conflict) in
      let more = await_accounts rounds ib (record { conn = sc; world = w }, conflict) in
      if is_empty (managed_accounts (tws.managed ib s.world)) then more else (s, cid_conflict)

  -- From `self.ib = ib` to `return True`.
  unfoldable pub accept : ℕ → Slot W → Slot W
  accept ib s =
      let sc = record s.conn { ib = some ib; state = connected; last_error = none } in
      (await_accounts 20 ib (note_message (record s { conn = sc }), false)).0

  -- The rotation of the client id on a conflict, with the pause of a second.
  unfoldable pub rotate_if : Bool → Slot W → Slot W
  rotate_if false s = s
  rotate_if true s =
      let next = (s.conn.current_cid_index + 1) % length cfg.client_ids in
      let (errors, w) = tws.pause 1000 s.world in
      record {
        conn = (note_errors errors (record s.conn { current_cid_index = next }, true)).0;
        world = w;
      }

  -- `except Exception as e`, with str(e).
  unfoldable pub reject : ℕ → Text → Bool → Slot W → Slot W
  reject ib message cid_conflict s =
      let err_text = or_else message (or_blank s.conn.last_error) in
      let sc = record s.conn { last_error = or_last err_text s.conn.last_error } in
      let rotated =
        rotate_if (is_client_id_conflict err_text sc.last_error || cid_conflict)
          (record s { conn = sc }) in
      record rotated { world = tws.hang_up ib rotated.world }

  -- str(ConnectionError(self.last_error or "TWS rejected client id"))
  unfoldable pub rejection : Option Text → Text
  rejection last_error = or_else (or_blank last_error) (txt "TWS rejected client id")

  -- What follows connectAsync: `failure` is the text of its exception.
  unfoldable pub conclude : ℕ → Option Text → Bool → Slot W → Bool × Slot W
  conclude ib (some message) cid_conflict s = (false, reject ib message cid_conflict s)
  conclude ib none cid_conflict s =
      if cid_conflict || not (tws.is_connected ib s.world)
      then (false, reject ib (rejection s.conn.last_error) cid_conflict s)
      else (true, accept ib s)

  -- One attempt with the client id `cid`: true if it connected.
  unfoldable pub attempt : ℤ → Slot W → Bool × Slot W
  attempt cid s =
      let (ib, w) = tws.open_session s.world in
      let (errors, failure, w') = tws.connect_async ib cfg.ip cfg.port cid w in
      let (sc, cid_conflict) = note_errors errors (s.conn, false) in
      conclude ib failure cid_conflict (record { conn = sc; world = w' })

  unfoldable pub mark_disconnected : Slot W → Slot W
  mark_disconnected s = record s { conn = record s.conn { state = disconnected } }

  -- One round of the loop: `go_on` is the rest of it. An index out of range raises in the source
  -- and ends the loop here. It never is (Connection.Connect).
  unfoldable pub try_client : Option ℤ → (Slot W → Bool × Slot W) → Slot W → Bool × Slot W
  try_client none go_on s = (false, s)
  try_client (some cid) go_on s =
      let (ok, s') = attempt cid s in let more = go_on s' in if ok then (true, s') else more

  -- `for _ in range(len(client_ids))`
  unfoldable pub connect_loop : ℕ → Slot W → Bool × Slot W
  connect_loop zero s = (false, mark_disconnected s)
  connect_loop (suc rounds) s = try_client (client_id cfg s.conn) (connect_loop rounds) s

  -- Under the lock.
  unfoldable pub connect_locked : Slot W → Bool × Slot W
  connect_locked s =
      if session_up s.conn.ib s.world
      then (true, record s { conn = record s.conn { state = connected } })
      else connect_loop (length cfg.client_ids) (record {
        conn = record s.conn { ib = none; state = reconnecting };
        world = hang_up_if s.conn.ib s.world;
      })

  unfoldable pub connect : Slot W → Bool × Slot W
  connect s = if s.conn.in_maintenance then (false, s) else connect_locked s

  unfoldable pub rest : ℕ → Slot W → Slot W
  rest ms s = record s { world = (tws.pause ms s.world).1 }

  -- One round of reconnect_loop, with the delay in milliseconds.
  unfoldable pub reconnect_step : ℕ → ℕ → ℕ → Slot W → ℕ × Slot W
  reconnect_step base_delay max_delay delay s =
      if s.conn.in_maintenance
      then (delay, rest 2000 s)
      else if is_connected_state s.conn.state
      then (base_delay, rest 1000 s)
      else let (ok, s') = connect s in
        if ok
        then (
          base_delay,
          record s' { conn = record s'.conn { reconnects = s'.conn.reconnects + 1 } },
        )
        else (min (delay * 2) max_delay, rest delay s')

  -- At most `fuel` rounds, while the stop event is not set.
  unfoldable pub reconnect_loop : (W → Bool) → ℕ → ℕ → ℕ → ℕ → Slot W → ℕ × Slot W
  reconnect_loop stopped zero base_delay max_delay delay s = (delay, s)
  reconnect_loop stopped (suc fuel) base_delay max_delay delay s =
      let (delay', s') = reconnect_step base_delay max_delay delay s in
      let more = reconnect_loop stopped fuel base_delay max_delay delay' s' in
      if stopped s.world then (delay, s) else more
