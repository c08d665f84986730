-- ===== src/Live/MarketSound.antt =====
-- A round of _market_loop keeps the slots sound.
use mathlib.Core.Path.{subst}
use bifrost_platform_plugin.Prelude.{
  ℕ, ◌≡◌, refl, sym, Bool, true, false, not, List, [], ◌∷◌, Option, none, some, if◌then◌else◌,
  Bool-cases, inl, inr, arith,
}
use bifrost_platform_plugin.Text.{Text, txt, text_eq}
use bifrost_platform_plugin.Float.{Float}
use bifrost_platform_plugin.Effects.{Exn, Outcome, returned, raised, Env}
use bifrost_platform_plugin.Effects.Keep.{Preserves, continue-Preserves, Preserves-bind}
use bifrost_platform_plugin.Json.{Dict, Python}
use bifrost_platform_plugin.Redis.{Redis}
use bifrost_platform_plugin.RedisKeys.{stk_contract_key}
use bifrost_platform_plugin.Connection.{Tws, TwsSlotConfig, SlotConnection, sync_connection_state}
use bifrost_platform_plugin.Connection.Reach.{IsSound, sync-IsSound}
use bifrost_platform_plugin.Ib.{Ib}
use bifrost_platform_plugin.Live.State.{find_slot, usable, host_slot, host_ok}
use bifrost_platform_plugin.Live.Slots.{AllSound}
use bifrost_platform_plugin.Live.OptCache.{note_slot, note_host}
use bifrost_platform_plugin.Live.MarketData.{StreamSettings, Feed}
use bifrost_platform_plugin.Live.Accounts.{WithinRows, Tour, gather}
use bifrost_platform_plugin.Live.Market.{
  Market, Tickers, has_ghost, unmark, replace_slot, set_slots, clear_if, note_tick, write_view,
  write_ticks, stream_round, stream_if, publish_rows, after_tour, account_round, market_with,
  market_round,
}
use bifrost_platform_plugin.Live.GatherSound.{gather-AllSound, drop_ghosts-AllSound}

note_slot-AllSound :
    (name : Text) (now : Float) (slots : List (TwsSlotConfig × SlotConnection))
    → AllSound slots
    → AllSound (note_slot name now slots)
unfolding note_slot
note_slot-AllSound name now [] h = tt
note_slot-AllSound name now ((cfg, sc) ∷ slots) h = elim (Bool-cases (text_eq name cfg.slot)) [
  | inl same ↦ rw same (
    record {
      has_session = h.0.has_session;
      not_maintained = h.0.not_maintained;
      settled = h.0.settled;
      in_range = h.0.in_range;
    },
    h.1,
  )
  | inr other ↦ rw other (h.0, note_slot-AllSound name now slots h.1)
]

-- The slot of that name in sound slots is sound, and a sound one in its place leaves them sound.
pub find_slot-IsSound :
    (name : Text) (slots : List (TwsSlotConfig × SlotConnection)) (cfg : TwsSlotConfig)
    (sc : SlotConnection)
    → AllSound slots
    → find_slot name slots ≡ some (cfg, sc)
    → IsSound cfg sc
      × ((sc' : SlotConnection) → IsSound cfg sc' → AllSound (replace_slot name sc' slots))
unfolding find_slot replace_slot
find_slot-IsSound name [] cfg sc h found = cc
find_slot-IsSound name ((c, d) ∷ slots) cfg sc h found = elim (Bool-cases (text_eq name c.slot)) [
  | inl same ↦
      let e : ◌≡◌ {A = Option (TwsSlotConfig × SlotConnection)} (some (c, d)) (some (cfg, sc)) =
        rw same at found in
      let p : ◌≡◌ {A = TwsSlotConfig × SlotConnection} (c, d) (cfg, sc) = cc in
      (
        subst (λ q. IsSound q.0 q.1) p h.0,
        λ sc' k. rw same (subst (λ q. IsSound q.0 sc') (sym p) k, h.1),
      )
  | inr other ↦
      let r = find_slot-IsSound name slots cfg sc h.1 (rw other at found) in
      (r.0, λ sc' k. rw other (h.0, r.1 sc' k))
]

usable-given :
    (o : Option (TwsSlotConfig × SlotConnection)) (slot : TwsSlotConfig × SlotConnection)
    → usable o ≡ some slot
    → o ≡ some slot
unfolding usable
usable-given none slot h = cc
usable-given (some (cfg, sc)) slot h = ground arith

-- The slots of the gateway are sound.
abbrev pub SoundSlots : {W : Type 0} → Market × W → Type 0
SoundSlots (m, w) = AllSound m.live.slots

clear_if-slots : (b : Bool) (m : Market) → (clear_if b m).live.slots ≡ m.live.slots
unfolding clear_if
clear_if-slots true m = refl
clear_if-slots false m = refl

if-SoundSlots :
    {W : Type 0} (b : Bool) (x y : Outcome ℕ × (Market × W))
    → SoundSlots x.1
    → SoundSlots y.1
    → SoundSlots (if b then x else y).1
if-SoundSlots true x y h k = h
if-SoundSlots false x y h k = k

module _ {W : Type 0} (rds : Redis W) (py : Python) (env : Env W) (tws : Tws W) (api : Ib W)
    (within_rows : WithinRows W) (feed : Feed W) (view : Tickers W) (strftime : Float → Text)
    (read_float : Text → Option Float) (settings : StreamSettings) where
  write_view-Preserves :
      (sym : Text) (key : Outcome Text)
      → Preserves SoundSlots
          (write_view rds py env tws api within_rows feed view strftime read_float settings sym key)
  unfolding write_view note_tick note_host
  write_view-Preserves sym (raised e) g h = h
  write_view-Preserves sym (returned key) (m, w) h =
      continue-Preserves SoundSlots
        (λ done. note_tick rds py env tws api within_rows feed view strftime read_float settings) _
        _ (λ done g k. note_slot-AllSound (txt "host") (env.now g.1) g.0.live.slots k) h

  write_ticks-Preserves :
      (tickers : List Text)
      → Preserves SoundSlots (
          write_ticks rds py env tws api within_rows feed view strftime read_float settings tickers)
  unfolding write_ticks
  write_ticks-Preserves [] g h = h
  write_ticks-Preserves (sym ∷ tickers) g h =
      Preserves-bind SoundSlots
        (write_view rds py env tws api within_rows feed view strftime read_float settings sym
          (stk_contract_key sym))
        (λ done.
          write_ticks rds py env tws api within_rows feed view strftime read_float settings tickers)
        (write_view-Preserves sym (stk_contract_key sym)) (λ done. write_ticks-Preserves tickers) g
        h

  stream_round-Preserves :
      Preserves SoundSlots
        (stream_round rds py env tws api within_rows feed view strftime read_float settings)
  unfolding stream_round
  stream_round-Preserves (m, w) h =
      continue-Preserves SoundSlots
        (λ done.
          write_ticks rds py env tws api within_rows feed view strftime read_float settings _)
        _ _ (λ done. write_ticks-Preserves _) h

  stream_if-Preserves :
      (rows : List Dict)
      → Preserves SoundSlots
          (stream_if rds py env tws api within_rows feed view strftime read_float settings rows)
  unfolding stream_if
  stream_if-Preserves [] g h = h
  stream_if-Preserves (row ∷ rows) (m, w) h = elim (Bool-cases (host_ok m.live)) [
    | inl up ↦ rw up (stream_round-Preserves (m, w) h)
    | inr down ↦ rw down h
  ]

  publish_rows-Preserves :
      (rows : List Dict)
      → Preserves SoundSlots
          (publish_rows rds py env tws api within_rows feed view strftime read_float settings rows)
  unfolding publish_rows
  publish_rows-Preserves rows (m, w) h =
      continue-Preserves SoundSlots
        (λ done.
          stream_if rds py env tws api within_rows feed view strftime read_float settings rows)
        _ _ (λ done. stream_if-Preserves rows) h

  after_tour-SoundSlots :
      (t : Tour) (failure : Option Exn) (m : Market) (w : W)
      → AllSound (unmark t.slots)
      → SoundSlots
          (after_tour rds py env tws api within_rows feed view strftime read_float settings t
            failure
            (m, w)).1
  unfolding after_tour
  after_tour-SoundSlots t (some e) m w h = h
  after_tour-SoundSlots t none m w h = publish_rows-Preserves t.gathered.1 _ (
      rw (clear_if-slots (has_ghost t.slots) _)
        (drop_ghosts-AllSound tws py api within_rows t.slots w h))

  market_with-SoundSlots :
      (host : Option (TwsSlotConfig × SlotConnection)) (m : Market) (w : W)
      → host_slot m.live ≡ host
      → SoundSlots (m, w)
      → SoundSlots
          (market_with rds py env tws api within_rows feed view strftime read_float settings host
            (m, w)).1
  unfolding market_with host_slot account_round
  market_with-SoundSlots none m w e h = h
  market_with-SoundSlots (some (cfg, sc)) m w e h =
      let r =
        find_slot-IsSound (txt "host") m.live.slots cfg sc h
          (usable-given (find_slot (txt "host") m.live.slots) (cfg, sc) e) in
      let s = sync_connection_state tws cfg (record { conn = sc; world = w }) in
      let slots = replace_slot (txt "host") s.1.conn m.live.slots in
      let sound : AllSound slots =
        r.1 s.1.conn (sync-IsSound tws cfg (record { conn = sc; world = w }) r.0) in
      let t = gather tws py api within_rows slots ([], []) s.1.world in
      if-SoundSlots (not s.0) _ _ sound (
        if-SoundSlots (not cfg.has_market_data) _ _ sound (
          after_tour-SoundSlots t.0 t.0.failure (set_slots slots m) t.1
            (gather-AllSound tws py api within_rows slots ([], []) s.1.world sound)))

  -- A round of the market loop keeps every slot sound, whatever Redis and TWS answer and wherever an
  -- exception ends it: no slot is left connected without a session, in maintenance, or halfway.
  pub market_round-AllSound :
      (m : Market) (w : W)
      → AllSound m.live.slots
      → AllSound
          (market_round rds py env tws api within_rows feed view strftime read_float settings
            (m, w)).0.live.slots
  unfolding market_round
  market_round-AllSound m w h = market_with-SoundSlots (host_slot m.live) m w refl h
