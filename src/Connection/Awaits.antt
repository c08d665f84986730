-- ===== src/Connection/Awaits.antt =====
-- SlotConnection.connect cut at its awaits: what runs between two of them, under the lock.
use bifrost_platform_plugin.Prelude.{
  ℤ, ℕ, zero, suc, ◌+◌, ◌%◌, Bool, true, false, not, ◌||◌, Option, none, some, length,
  if◌then◌else◌,
}
use bifrost_platform_plugin.Text.{Text}
use bifrost_platform_plugin.Connection.Defs.{
  connected, reconnecting, Tws, TwsSlotConfig, Slot, client_id, note_errors, note_message,
  session_up, hang_up_if, managed_accounts, is_empty, is_client_id_conflict, or_else, or_blank,
  or_last, rejection, mark_disconnected,
}

-- Where the holder of the lock waits: nowhere, as the lock is free; for connectAsync; for accounts;
-- for the second after a conflict. `rounds` counts the client ids that are left.
pub data Phase : Type 0 where
  idle : Phase
  dialling : (rounds ib : ℕ) → ℤ → Phase
  settling : (rounds ib : ℕ) → Bool → Phase
  backing_off : (rounds ib : ℕ) → Phase

module _ {W : Type 0} (tws : Tws W) (cfg : TwsSlotConfig) where
  unfoldable pub dial : ℕ → Option ℤ → Slot W → Phase × Slot W
  dial rounds none s = (idle, s)
  dial rounds (some cid) s =
      let (ib, w) = tws.open_session s.world in (dialling rounds ib cid, record s { world = w })

  -- The head of the loop over the client ids, and what follows it.
  unfoldable pub next_client : ℕ → Slot W → Phase × Slot W
  next_client zero s = (idle, mark_disconnected tws cfg s)
  next_client (suc rounds) s = dial rounds (client_id cfg s.conn) s

  -- The last `ib.disconnect()` of a failed attempt, and on to the next client id.
  unfoldable pub hang_up_next : ℕ → ℕ → Slot W → Phase × Slot W
  hang_up_next rounds ib s = next_client rounds (record s { world = tws.hang_up ib s.world })

  unfoldable pub back_off_if : Bool → ℕ → ℕ → Slot W → Phase × Slot W
  back_off_if false rounds ib s = hang_up_next rounds ib s
  back_off_if true rounds ib s = (
    backing_off rounds ib,
    record s {
      conn = record s.conn {
        current_cid_index = (s.conn.current_cid_index + 1) % length cfg.client_ids;
      };
    },
  )

  -- `except Exception as e`, with str(e).
  unfoldable pub fail_attempt : ℕ → ℕ → Text → Bool → Slot W → Phase × Slot W
  fail_attempt rounds ib message cid_conflict s =
      let err_text = or_else message (or_blank s.conn.last_error) in
      let sc = record s.conn { last_error = or_last err_text s.conn.last_error } in
      back_off_if (is_client_id_conflict err_text sc.last_error || cid_conflict) rounds ib
        (record s { conn = sc })

  -- The head of `for _ in range(20)`.
  unfoldable pub settle : ℕ → ℕ → Bool → Slot W → Phase × Slot W
  settle zero ib cid_conflict s = (idle, s)
  settle (suc rounds) ib cid_conflict s =
      if is_empty (managed_accounts (tws.managed ib s.world))
      then (settling rounds ib cid_conflict, s)
      else (idle, s)

  -- From `self.ib = ib` to the first wait for accounts.
  unfoldable pub accept_session : ℕ → Slot W → Phase × Slot W
  accept_session ib s =
      let sc = record s.conn { ib = some ib; state = connected; last_error = none } in
      settle 20 ib false (note_message tws cfg (record s { conn = sc }))

  -- What follows connectAsync: `failure` is the text of its exception.
  unfoldable pub answered : ℕ → ℕ → Option Text → Bool → Slot W → Phase × Slot W
  answered rounds ib (some message) cid_conflict s = fail_attempt rounds ib message cid_conflict s
  answered rounds ib none cid_conflict s =
      if cid_conflict || not (tws.is_connected ib s.world)
      then fail_attempt rounds ib (rejection tws cfg s.conn.last_error) cid_conflict s
      else accept_session ib s

  -- The wait of a phase ends, with the error events that came meanwhile.
  unfoldable pub resume : Phase → Slot W → Phase × Slot W
  resume idle s = (idle, s)
  resume (dialling rounds ib cid) s =
      let (errors, failure, w) = tws.connect_async ib cfg.ip cfg.port cid s.world in
      let (sc, cid_conflict) = note_errors errors (s.conn, false) in
      answered rounds ib failure cid_conflict (record { conn = sc; world = w })
  resume (settling rounds ib cid_conflict) s =
      let (errors, w) = tws.pause 250 s.world in
      let (sc, conflict) = note_errors errors (s.conn, cid_conflict) in
      settle rounds ib conflict (record { conn = sc; world = w })
  resume (backing_off rounds ib) s =
      let (errors, w) = tws.pause 1000 s.world in
      hang_up_next rounds ib (record { conn = (note_errors errors (s.conn, true)).0; world = w })

  -- What connect does once it has the lock, to its first await.
  unfoldable pub begin : Slot W → Phase × Slot W
  begin s =
      if session_up tws cfg s.conn.ib s.world
      then (idle, record s { conn = record s.conn { state = connected } })
      else next_client (length cfg.client_ids) (record {
        conn = record s.conn { ib = none; state = reconnecting };
        world = hang_up_if tws cfg s.conn.ib s.world;
      })
