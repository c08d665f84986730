-- ===== src/Live/Slots.antt =====
-- What the calls on all the slots leave.
use bifrost_platform_plugin.Prelude.{List, [], ◌∷◌, All}
use bifrost_platform_plugin.Connection.{Tws, TwsSlotConfig, SlotConnection, disconnect, connect}
use bifrost_platform_plugin.Connection.Reach.{IsSound, disconnect-IsSound, connect-IsSound}
use bifrost_platform_plugin.Live.State.{
  Live, disconnect_slots, reconnect_slots, disconnect_all, reconnect_all,
}

abbrev pub AllSound : List (TwsSlotConfig × SlotConnection) → Type 0
AllSound = All (λ p. IsSound p.0 p.1)

module _ {W : Type 0} (tws : Tws W) where
  disconnect_slots-IsSound :
      (slots : List (TwsSlotConfig × SlotConnection)) (w : W)
      → AllSound slots
      → AllSound (disconnect_slots tws slots w).0
  unfolding disconnect_slots
  disconnect_slots-IsSound [] w h = tt
  disconnect_slots-IsSound ((cfg, sc) ∷ slots) w h = (
    disconnect-IsSound tws cfg (record { conn = sc; world = w }) h.0,
    disconnect_slots-IsSound slots (disconnect tws cfg (record { conn = sc; world = w })).world h.1,
  )

  reconnect_slots-IsSound :
      (slots : List (TwsSlotConfig × SlotConnection)) (w : W)
      → AllSound slots
      → AllSound (reconnect_slots tws slots w).0
  unfolding reconnect_slots
  reconnect_slots-IsSound [] w h = tt
  reconnect_slots-IsSound ((cfg, sc) ∷ slots) w h = (
    connect-IsSound tws cfg (record { conn = sc; world = w }) h.0,
    reconnect_slots-IsSound slots (connect tws cfg (record { conn = sc; world = w })).1.world h.1,
  )

  pub disconnect_all-AllSound :
      (live : Live) (w : W) → AllSound live.slots → AllSound (disconnect_all tws (live, w)).0.slots
  unfolding disconnect_all
  disconnect_all-AllSound live w h = disconnect_slots-IsSound live.slots w h

  pub reconnect_all-AllSound :
      (live : Live) (w : W) → AllSound live.slots → AllSound (reconnect_all tws (live, w)).0.slots
  unfolding reconnect_all
  reconnect_all-AllSound live w h = reconnect_slots-IsSound live.slots w h

  -- When every slot is sound, disconnecting them all and connecting them all again keep each
  -- sound, whatever TWS answers.
  pub all_slots-IsSound :
      (live : Live) (w : W)
      → AllSound live.slots
      → AllSound (disconnect_all tws (live, w)).0.slots
        × AllSound (reconnect_all tws (disconnect_all tws (live, w))).0.slots
  all_slots-IsSound live w h =
      let down = disconnect_all-AllSound live w h in
      (down, reconnect_all-AllSound _ (disconnect_all tws (live, w)).1 down)
