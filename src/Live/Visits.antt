-- ===== src/Live/Visits.antt =====
-- The order in which the slots are disconnected and connected again.
use bifrost_platform_plugin.Prelude.{◌≡◌, refl, List, [], ◌∷◌, none}
use bifrost_platform_plugin.Connection.{
  Tws, TwsSlotConfig, SlotConnection, Slot, disconnected, disconnect, connect,
}
use bifrost_platform_plugin.Live.State.{disconnect_slots, reconnect_slots}

-- `step` is taken once for each slot, one after the other, in the world that the one before leaves.
pub data Visits {W : Type 0} (step : TwsSlotConfig → Slot W → Slot W)
    : List (TwsSlotConfig × SlotConnection)
      → W
      → List (TwsSlotConfig × SlotConnection)
      → W
      → Type 0 where
  finished : {w : W} → Visits step [] w [] w
  visited :
      {cfg : TwsSlotConfig} {sc : SlotConnection}
      {slots slots' : List (TwsSlotConfig × SlotConnection)} {w w' : W}
      → Visits step slots (step cfg (record { conn = sc; world = w })).world slots' w'
      → Visits step
          ((cfg, sc) ∷ slots)
          w
          ((cfg, (step cfg (record { conn = sc; world = w })).conn) ∷ slots')
          w'

-- None of the slots has a session.
abbrev pub AreDown : List (TwsSlotConfig × SlotConnection) → Type 0
AreDown [] = Unit
AreDown ((cfg, sc) ∷ slots) = (sc.state ≡ disconnected) × (sc.ib ≡ none) × AreDown slots

module _ {W : Type 0} (tws : Tws W) where
  abbrev dial_again : TwsSlotConfig → Slot W → Slot W
  dial_again cfg s = (connect tws cfg s).1

  -- All slots are disconnected in turn, and then all are connected in turn.
  abbrev pub Reconnected :
      List (TwsSlotConfig × SlotConnection) → W → List (TwsSlotConfig × SlotConnection) → Type 0
  Reconnected slots w slots' =
      (between : List (TwsSlotConfig × SlotConnection)) × (v v' : W) × Visits (disconnect tws) slots
        w between v
      × AreDown between
      × Visits dial_again between v slots' v'

  disconnect-Visits :
      (slots : List (TwsSlotConfig × SlotConnection)) (w : W)
      → Visits
          (disconnect tws)
          slots
          w
          (disconnect_slots tws slots w).0
          (disconnect_slots tws slots w).1
  unfolding disconnect_slots
  disconnect-Visits [] w = finished
  disconnect-Visits ((cfg, sc) ∷ slots) w =
      visited (disconnect-Visits slots (disconnect tws cfg (record { conn = sc; world = w })).world)

  disconnect-AreDown :
      (slots : List (TwsSlotConfig × SlotConnection)) (w : W)
      → AreDown (disconnect_slots tws slots w).0
  unfolding disconnect_slots disconnect
  disconnect-AreDown [] w = tt
  disconnect-AreDown ((cfg, sc) ∷ slots) w = (refl, refl, disconnect-AreDown slots _)

  reconnect-Visits :
      (slots : List (TwsSlotConfig × SlotConnection)) (w : W)
      → Visits dial_again slots w (reconnect_slots tws slots w).0 (reconnect_slots tws slots w).1
  unfolding reconnect_slots
  reconnect-Visits [] w = finished
  reconnect-Visits ((cfg, sc) ∷ slots) w =
      visited (reconnect-Visits slots (dial_again cfg (record { conn = sc; world = w })).world)

  pub slots-Reconnected :
      (slots : List (TwsSlotConfig × SlotConnection)) (w : W)
      → Reconnected slots w
          (reconnect_slots tws (disconnect_slots tws slots w).0 (disconnect_slots tws slots w).1).0
  slots-Reconnected slots w = (
    (disconnect_slots tws slots w).0,
    (disconnect_slots tws slots w).1,
    (reconnect_slots tws (disconnect_slots tws slots w).0 (disconnect_slots tws slots w).1).1,
    disconnect-Visits slots w,
    disconnect-AreDown slots w,
    reconnect-Visits (disconnect_slots tws slots w).0 (disconnect_slots tws slots w).1,
  )
