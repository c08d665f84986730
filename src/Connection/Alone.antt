-- ===== src/Connection/Alone.antt =====
-- connect cut at its awaits, when no other task runs at them, is connect.
use bifrost_platform_plugin.Prelude.{
  ℤ, ℕ, zero, suc, ◌≡◌, Bool, true, false, not, ◌||◌, Option, none, some, length, if◌then◌else◌,
  Bool-cases, inl, inr,
}
use bifrost_platform_plugin.Text.{Text}
use bifrost_platform_plugin.Connection.Defs.{
  Tws, TwsSlotConfig, Slot, client_id, note_errors, session_up, managed_accounts, is_empty,
  is_client_id_conflict, or_else, or_blank, or_last, rejection, await_accounts, accept, rotate_if,
  reject, conclude, attempt, try_client, connect_loop, connect_locked, connect,
}
use bifrost_platform_plugin.Connection.Awaits.{
  Phase, idle, dialling, settling, backing_off, dial, next_client, hang_up_next, back_off_if,
  fail_attempt, settle, accept_session, answered, resume, begin,
}

module _ {W : Type 0} (tws : Tws W) (cfg : TwsSlotConfig) where
  -- The waits end one after the other, and nothing else runs, until the lock is free.
  pub data Alone : Phase × Slot W → Slot W → Type 0 where
    stop : (s : Slot W) → Alone (idle, s) s
    more : (p : Phase) (s t : Slot W) → Alone (resume tws cfg p s) t → Alone (p, s) t

  settle-Alone :
      (rounds ib : ℕ) (c : Bool) (s : Slot W)
      → Alone (settle tws cfg rounds ib c s) (await_accounts tws cfg rounds ib (s, c)).0
  unfolding settle await_accounts resume
  settle-Alone zero ib c s = stop s
  settle-Alone (suc rounds) ib c s =
      elim (Bool-cases (is_empty (managed_accounts (tws.managed ib s.world)))) [
        | inl on ↦
            let (errors, w) = tws.pause 250 s.world in
            let t = note_errors errors (s.conn, c) in
            rw on (
              more (settling rounds ib c) s _
                (settle-Alone rounds ib t.1 (record { conn = t.0; world = w })))
        | inr off ↦ rw off (stop s)
      ]

  -- The rest of the loop, from any slot, is connect_loop.
  abbrev GoesOn : ℕ → Type 0
  GoesOn rounds =
      (v : Slot W) → Alone (next_client tws cfg rounds v) (connect_loop tws cfg rounds v).1

  back_off-Alone :
      (rounds ib : ℕ) (b : Bool) (v : Slot W)
      → GoesOn rounds
      → Alone
          (back_off_if tws cfg b rounds ib v)
          (connect_loop tws cfg rounds (record (rotate_if tws cfg b v) {
            world = tws.hang_up ib (rotate_if tws cfg b v).world;
          })).1
  unfolding back_off_if rotate_if hang_up_next resume
  back_off-Alone rounds ib false v rest = rest _
  back_off-Alone rounds ib true v rest = more (backing_off rounds ib) _ _ (rest _)

  fail-Alone :
      (rounds ib : ℕ) (message : Text) (c : Bool) (s : Slot W)
      → GoesOn rounds
      → Alone
          (fail_attempt tws cfg rounds ib message c s)
          (connect_loop tws cfg rounds (reject tws cfg ib message c s)).1
  unfolding fail_attempt reject
  fail-Alone rounds ib message c s rest =
      let err_text = or_else message (or_blank s.conn.last_error) in
      let sc = record s.conn { last_error = or_last err_text s.conn.last_error } in
      back_off-Alone rounds ib (is_client_id_conflict err_text sc.last_error || c)
        (record s { conn = sc }) rest

  -- Where connect goes on after an attempt.
  abbrev after_attempt : ℕ → Bool × Slot W → Slot W
  after_attempt rounds (ok, s) = (if ok then (true, s) else connect_loop tws cfg rounds s).1

  answered-Alone :
      (rounds ib : ℕ) (failure : Option Text) (c : Bool) (s : Slot W)
      → GoesOn rounds
      → Alone
          (answered tws cfg rounds ib failure c s)
          (after_attempt rounds (conclude tws cfg ib failure c s))
  unfolding answered conclude accept_session accept
  answered-Alone rounds ib (some message) c s rest = fail-Alone rounds ib message c s rest
  answered-Alone rounds ib none c s rest =
      elim (Bool-cases (c || not (tws.is_connected ib s.world))) [
        | inl bad ↦ rw bad (fail-Alone rounds ib (rejection tws cfg s.conn.last_error) c s rest)
        | inr good ↦ rw good (settle-Alone 20 ib false _)
      ]

  dial-Alone :
      (rounds : ℕ) (cid : Option ℤ) (s : Slot W)
      → GoesOn rounds
      → Alone (dial tws cfg rounds cid s) (try_client tws cfg cid (connect_loop tws cfg rounds) s).1
  unfolding dial try_client attempt resume
  dial-Alone rounds none s rest = stop s
  dial-Alone rounds (some cid) s rest =
      let (ib, w) = tws.open_session s.world in
      let (errors, failure, w') = tws.connect_async ib cfg.ip cfg.port cid w in
      let t = note_errors errors (s.conn, false) in
      more (dialling rounds ib cid) _ _
        (answered-Alone rounds ib failure t.1 (record { conn = t.0; world = w' }) rest)

  loop-Alone : (rounds : ℕ) → GoesOn rounds
  unfolding next_client connect_loop
  loop-Alone zero s = stop _
  loop-Alone (suc rounds) s = dial-Alone rounds (client_id cfg s.conn) s (loop-Alone rounds)

  -- Outside maintenance, when no other task runs at its awaits, what connect does between them leads
  -- in the end to the slot that connect, taken as one step, leaves.
  begin-Alone :
      (s : Slot W) → s.conn.in_maintenance ≡ false → Alone (begin tws cfg s) (connect tws cfg s).1
  unfolding begin connect connect_locked
  begin-Alone s off = elim (Bool-cases (session_up tws cfg s.conn.ib s.world)) [
    | inl up ↦ rw (off, up) (stop _)
    | inr down ↦ rw (off, down) (loop-Alone (length cfg.client_ids) _)
  ]
