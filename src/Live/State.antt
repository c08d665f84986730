-- ===== src/Live/State.antt =====
-- The state of LiveGateway and what it does to all its slots.
use bifrost_platform_plugin.Prelude.{
  ℕ, Bool, false, List, [], ◌∷◌, Option, none, some, if◌then◌else◌,
}
use bifrost_platform_plugin.Text.{Text, txt, text_eq, mem_text, strip, lower}
use bifrost_platform_plugin.Float.{Float}
use bifrost_platform_plugin.Effects.{Io}
use bifrost_platform_plugin.Connection.{
  Tws, TwsSlotConfig, SlotConnection, is_connected_state, disconnect, connect,
}

-- The slots by name, in the order of the settings; the count of commands; the subscribed symbols;
-- the marks of the self-healing and of the option cache.
pub record Live : Type 0 where
  pub slots : List (TwsSlotConfig × SlotConnection)
  pub cmd_count : ℕ
  pub tickers : List Text
  pub stale_streak : ℕ
  pub cooldown_until : Float
  pub opt_cache_progress_at : Float
  pub opt_cache_stale_warned_at : Float

-- What the self-healing and the watch on the option cache read of GatewaySettings.
pub record Settings : Type 0 where
  pub self_heal_enabled : Bool
  pub snapshot_stale_reconnect_sec : Float
  pub snapshot_stale_max_before_rollout : ℕ
  pub soft_reconnect_cooldown_sec : Float
  pub opt_cache_stale_warn_sec : Float

-- The gateway in its world.
abbrev pub Gate : Type 0 → Type 0
Gate W = Live × W

abbrev pub LiveIo : Type 0 → Type 0 → Type 0
LiveIo W A = Io (Gate W) A

-- An action on Redis leaves the gateway's own state alone.
unfoldable pub on_redis : {W A : Type 0} → Io W A → LiveIo W A
on_redis m (live, w) = ((m w).0, (live, (m w).1))

-- self._slots.get(name)
unfoldable pub find_slot :
    Text → List (TwsSlotConfig × SlotConnection) → Option (TwsSlotConfig × SlotConnection)
find_slot name [] = none
find_slot name ((cfg, sc) ∷ slots) =
    if text_eq name cfg.slot then some (cfg, sc) else find_slot name slots

unfoldable pub state_of : Option (TwsSlotConfig × SlotConnection) → Bool
state_of none = false
state_of (some (cfg, sc)) = is_connected_state sc.state

-- slot_for_payload, with the text of `account_slot` or "primary" in its place
unfoldable pub slot_for_payload :
    Text → List (TwsSlotConfig × SlotConnection) → Option (TwsSlotConfig × SlotConnection)
slot_for_payload account_slot slots =
    if mem_text (lower (strip account_slot)) (txt "secondary" ∷ txt "sec" ∷ [])
    then find_slot (txt "secondary") slots
    else find_slot (txt "host") slots

-- host is not None and host.state == CONNECTED
unfoldable pub host_ok : Live → Bool
host_ok live = state_of (find_slot (txt "host") live.slots)

unfoldable pub usable :
    Option (TwsSlotConfig × SlotConnection) → Option (TwsSlotConfig × SlotConnection)
usable none = none
usable (some (cfg, sc)) = elim sc.ib [
  | none ↦ none
  | some ib ↦ if is_connected_state sc.state then some (cfg, sc) else none
]

unfoldable pub host_slot : Live → Option (TwsSlotConfig × SlotConnection)
host_slot live = usable (find_slot (txt "host") live.slots)

module _ {W : Type 0} (tws : Tws W) where
  unfoldable pub disconnect_slots :
      List (TwsSlotConfig × SlotConnection) → W → List (TwsSlotConfig × SlotConnection) × W
  disconnect_slots [] w = ([], w)
  disconnect_slots ((cfg, sc) ∷ slots) w =
      let s = disconnect tws cfg (record { conn = sc; world = w }) in
      let rest = disconnect_slots slots s.world in ((cfg, s.conn) ∷ rest.0, rest.1)

  unfoldable pub reconnect_slots :
      List (TwsSlotConfig × SlotConnection) → W → List (TwsSlotConfig × SlotConnection) × W
  reconnect_slots [] w = ([], w)
  reconnect_slots ((cfg, sc) ∷ slots) w =
      let s = (connect tws cfg (record { conn = sc; world = w })).1 in
      let rest = reconnect_slots slots s.world in ((cfg, s.conn) ∷ rest.0, rest.1)

  unfoldable pub disconnect_all : Gate W → Gate W
  disconnect_all (live, w) =
      let r = disconnect_slots live.slots w in (record live { slots = r.0 }, r.1)

  unfoldable pub reconnect_all : Gate W → Gate W
  reconnect_all (live, w) =
      let r = reconnect_slots live.slots w in (record live { slots = r.0 }, r.1)
