-- ===== src/Connection/Reach.antt =====
-- The calls of a slot's methods in any order, with the rest of the gateway acting in between.
use bifrost_platform_plugin.Prelude.{
  ℕ, ◌<◌, ◌≡◌, ◌≢◌, refl, ◌∙◌, Bool, true, false, Option, none, some, arith, Bool-cases, inl, inr,
  length,
}
use bifrost_platform_plugin.Connection.Defs.{
  connected, reconnecting, Tws, TwsSlotConfig, SlotConnection, Slot, new_slot, enter_maintenance,
  exit_maintenance, note_message, sync_connection_state, disconnect, probe, verify_api_alive,
  connect, rest, reconnect_step,
}
use bifrost_platform_plugin.Connection.Connect.{Settled, connect-Settled, connect_in_maintenance}

-- A slot that says it is connected has a session and is not in maintenance; no call leaves it
-- between two states; its client id is one of the configured ones.
pub record IsSound (cfg : TwsSlotConfig) (sc : SlotConnection) : Type 0 where
  pub has_session : sc.state ≡ connected → sc.ib ≢ none
  pub not_maintained : sc.state ≡ connected → sc.in_maintenance ≡ false
  pub settled : sc.state ≢ reconnecting
  pub in_range : sc.current_cid_index < length cfg.client_ids

module _ {W : Type 0} (tws : Tws W) (cfg : TwsSlotConfig) where
  -- One call of a method; `elsewhere` is what other tasks and TWS do to the world.
  pub data Step (s : Slot W) : Slot W → Type 0 where
    elsewhere : (w : W) → Step s (record s { world = w })
    noted : Step s (note_message tws cfg s)
    synced : Step s (sync_connection_state tws cfg s).1
    verified : Step s (verify_api_alive tws cfg s).1
    hung_up : Step s (disconnect tws cfg s)
    dialled : Step s (connect tws cfg s).1
    looped : (base max delay : ℕ) → Step s (reconnect_step tws cfg base max delay s).1
    entered : Step s (record s { conn = enter_maintenance s.conn })
    exited : Step s (record s { conn = exit_maintenance s.conn })

  pub data Reach (s : Slot W) : Slot W → Type 0 where
    here : Reach s s
    next : {t u : Slot W} → Reach s t → Step t u → Reach s u

  pub sync-IsSound :
      (s : Slot W) → IsSound cfg s.conn → IsSound cfg (sync_connection_state tws cfg s).1.conn
  unfolding sync_connection_state
  sync-IsSound s h = ground arith

  pub disconnect-IsSound :
      (s : Slot W) → IsSound cfg s.conn → IsSound cfg (disconnect tws cfg s).conn
  unfolding disconnect
  disconnect-IsSound s h = ground arith

  probe-IsSound :
      (ib : Option ℕ) (s : Slot W) → IsSound cfg s.conn → IsSound cfg (probe tws cfg ib s).1.conn
  unfolding probe note_message disconnect
  probe-IsSound none s h = h
  probe-IsSound (some ib) s h = ground arith

  pub verify-IsSound :
      (s : Slot W) → IsSound cfg s.conn → IsSound cfg (verify_api_alive tws cfg s).1.conn
  unfolding verify_api_alive
  verify-IsSound s h =
      let r = sync_connection_state tws cfg s in
      elim (Bool-cases r.0) [
        | inl up ↦ rw up (probe-IsSound r.1.conn.ib r.1 (sync-IsSound s h))
        | inr down ↦ rw down (sync-IsSound s h)
      ]

  of_Settled :
      (flag ok : Bool) (sc : SlotConnection)
      → flag ≡ false
      → Settled cfg flag ok sc
      → IsSound cfg sc
  of_Settled flag true sc off k = record {
    has_session = λ e. (k.up refl).1;
    not_maintained = λ e. k.flag_kept ∙ off;
    settled = λ e. cc ((k.up refl).0);
    in_range = k.in_range;
  }
  of_Settled flag false sc off k = record {
    has_session = λ e. cc ((k.down refl).0);
    not_maintained = λ e. k.flag_kept ∙ off;
    settled = λ e. cc ((k.down refl).0);
    in_range = k.in_range;
  }

  pub connect-IsSound : (s : Slot W) → IsSound cfg s.conn → IsSound cfg (connect tws cfg s).1.conn
  connect-IsSound s h = elim (Bool-cases s.conn.in_maintenance) [
    | inl on ↦ rw (connect_in_maintenance tws cfg s on) h
    | inr off ↦
        of_Settled s.conn.in_maintenance (connect tws cfg s).0 (connect tws cfg s).1.conn off
          (connect-Settled tws cfg s off h.in_range)
  ]

  pub reconnect_step-IsSound :
      (base max delay : ℕ) (s : Slot W)
      → IsSound cfg s.conn
      → IsSound cfg (reconnect_step tws cfg base max delay s).1.conn
  unfolding reconnect_step rest
  reconnect_step-IsSound base max delay s h = ground (arith, connect-IsSound s h)

  Step-IsSound : {s t : Slot W} → Step s t → IsSound cfg s.conn → IsSound cfg t.conn
  unfolding note_message enter_maintenance exit_maintenance
  Step-IsSound (elsewhere w) h = h
  Step-IsSound noted h = ground arith
  Step-IsSound {s} synced h = sync-IsSound s h
  Step-IsSound {s} verified h = verify-IsSound s h
  Step-IsSound {s} hung_up h = disconnect-IsSound s h
  Step-IsSound {s} dialled h = connect-IsSound s h
  Step-IsSound {s} (looped base max delay) h = reconnect_step-IsSound base max delay s h
  Step-IsSound entered h = ground arith
  Step-IsSound exited h = ground arith

  -- Whatever calls are made in whatever order, and whatever TWS and the other tasks do in
  -- between, a slot with at least one client id stays sound from its creation on.
  pub Reach-IsSound :
      {w : W} {t : Slot W}
      → 0 < length cfg.client_ids
      → Reach (record { conn = new_slot; world = w }) t
      → IsSound cfg t.conn
  unfolding new_slot
  Reach-IsSound some_id here = ground arith
  Reach-IsSound some_id (next r st) = Step-IsSound st (Reach-IsSound some_id r)
