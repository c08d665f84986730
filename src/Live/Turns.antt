-- ===== src/Live/Turns.antt =====
-- The tasks of the gateway take turns: the operator's handling of a stream, the market loop, the
-- health loop, the option cache and the reconnect loop of each slot. A turn is a round of a loop.
use bifrost_platform_plugin.Prelude.{ℕ, ◌≡◌, List, Option, none, some, []}
use bifrost_platform_plugin.Text.{Text, Fields}
use bifrost_platform_plugin.Float.{Float, zero_f}
use bifrost_platform_plugin.Effects.{returned, Env}
use bifrost_platform_plugin.Json.{Json, Dict, Python}
use bifrost_platform_plugin.Redis.{Redis}
use bifrost_platform_plugin.Protocol.{CommandMessage}
use bifrost_platform_plugin.Operator.{process_stream}
use bifrost_platform_plugin.Operator.Reach.{process_stream-Preserves}
use bifrost_platform_plugin.Writer.{Writer}
use bifrost_platform_plugin.Connection.{Tws, TwsSlotConfig, SlotConnection, reconnect_step}
use bifrost_platform_plugin.Connection.Reach.{reconnect_step-IsSound}
use bifrost_platform_plugin.Ib.{Ib}
use bifrost_platform_plugin.Startup.Slots.{fresh_slots}
use bifrost_platform_plugin.Startup.Load.{GatewaySettings, load_settings}
use bifrost_platform_plugin.Startup.Start.{load_settings-AllSound}
use bifrost_platform_plugin.Live.State.{Settings, Gate, LiveIo, find_slot}
use bifrost_platform_plugin.Live.Slots.{AllSound}
use bifrost_platform_plugin.Live.MarketData.{StreamSettings, Feed}
use bifrost_platform_plugin.Live.OptCache.{OptSettings, Waits, opt_cache_round}
use bifrost_platform_plugin.Live.Accounts.{WithinRows}
use bifrost_platform_plugin.Live.Commands.{handle_command}
use bifrost_platform_plugin.Live.Market.{Market, Tickers, replace_slot, set_slots, market_round}
use bifrost_platform_plugin.Live.MarketSound.{find_slot-IsSound, SoundSlots, market_round-AllSound}
use bifrost_platform_plugin.Live.Health.{health_round}
use bifrost_platform_plugin.Live.HealthSound.{GateSound, health_round-AllSound}
use bifrost_platform_plugin.Live.CommandSound.{handle_command-Preserves, opt_cache_round-GateSound}
use bifrost_platform_plugin.Live.Serve.{shared_redis, shared_env, shared-IsApart}

-- LiveGateway(settings, writer), at the time `now`
unfoldable pub new_live : Float → List TwsSlotConfig → Writer → Market
new_live now cfgs wr = record {
  live = record {
    slots = fresh_slots cfgs;
    cmd_count = 0;
    tickers = [];
    stale_streak = 0;
    cooldown_until = zero_f;
    opt_cache_progress_at = now;
    opt_cache_stale_warned_at = zero_f;
  };
  last_reconcile_at = zero_f;
  orders = record {
    open_orders = none;
    open_orders_at = zero_f;
    executions = none;
    executions_at = zero_f;
  };
  writer = wr;
}

-- What a task leaves of the gateway's own state, in the state of the whole process.
unfoldable pub with_live : {W : Type 0} → Market → Gate W → Market × W
with_live m (live, w) = (record m { live = live }, w)

module _ {W : Type 0} (rds : Redis W) (py : Python) (env : Env W) (tws : Tws W) (api : Ib W)
    (waits : Waits W) (within_rows : WithinRows W) (feed : Feed W) (view : Tickers W)
    (strftime : Float → Text) (read_float : Text → Option Float) (opt : OptSettings)
    (streams : StreamSettings) (health : Settings) where
  abbrev on_command : CommandMessage → LiveIo W Dict
  on_command = handle_command rds py env tws api waits strftime read_float opt

  -- One turn; `elsewhere` is what TWS, Redis and their other clients do in between.
  pub data Turn : Market × W → Market × W → Type 0 where
    elsewhere : (m : Market) (v w : W) → Turn (m, v) (m, w)
    served :
        (m : Market) (w : W) (stream : Text) (entries : List (Text × Option Fields))
        → Turn
            (m, w)
            (with_live m
              (process_stream
                (shared_redis rds)
                py
                (shared_env env)
                on_command
                (stream, entries)
                (m.live, w)).1)
    marketed :
        (m : Market) (w : W)
        → Turn
            (m, w)
            (market_round rds py env tws api within_rows feed view strftime read_float streams
              (m, w))
    checked :
        (m : Market) (w : W) (tick : ℕ)
        → Turn (m, w) (with_live m (health_round rds py env tws m.writer health tick (m.live, w)).1)
    cached :
        (m : Market) (w : W)
        → Turn
            (m, w)
            (with_live m (opt_cache_round rds py env api waits read_float opt (m.live, w)))
    dialled :
        (m : Market) (w : W) (cfg : TwsSlotConfig) (sc : SlotConnection) (base max delay : ℕ)
        → find_slot cfg.slot m.live.slots ≡ some (cfg, sc)
        → Turn
            (m, w)
            (let s = (reconnect_step tws cfg base max delay (record { conn = sc; world = w })).1 in
              (set_slots (replace_slot cfg.slot s.conn m.live.slots) m, s.world))

  pub data Reach (g : Market × W) : Market × W → Type 0 where
    here : Reach g g
    next : {h k : Market × W} → Reach g h → Turn h k → Reach g k

  served-GateSound :
      (stream : Text) (entries : List (Text × Option Fields)) (g : Gate W)
      → GateSound g
      → GateSound
          (process_stream (shared_redis rds) py (shared_env env) on_command (stream, entries) g).1
  served-GateSound stream entries =
      process_stream-Preserves GateSound (shared_redis rds) py (shared_env env)
        (shared-IsApart (λ live. AllSound live.slots) rds) on_command stream
        (λ msg allowed.
          handle_command-Preserves rds py env tws api waits strftime read_float opt msg)
        entries

  Turn-SoundSlots : {g h : Market × W} → Turn g h → SoundSlots g → SoundSlots h
  unfolding with_live
  Turn-SoundSlots (elsewhere m v w) k = k
  Turn-SoundSlots (served m w stream entries) k = served-GateSound stream entries (m.live, w) k
  Turn-SoundSlots (marketed m w) k =
      market_round-AllSound rds py env tws api within_rows feed view strftime read_float streams m w
        k
  Turn-SoundSlots (checked m w tick) k =
      health_round-AllSound rds py env tws m.writer health tick m.live w k
  Turn-SoundSlots (cached m w) k =
      opt_cache_round-GateSound rds py env tws api waits strftime read_float opt (m.live, w) k
  Turn-SoundSlots (dialled m w cfg sc base max delay found) k =
      let r = find_slot-IsSound cfg.slot m.live.slots cfg sc k found in
      r.1 _ (reconnect_step-IsSound tws cfg base max delay (record { conn = sc; world = w }) r.0)

  Reach-SoundSlots : {g h : Market × W} → Reach g h → SoundSlots g → SoundSlots h
  Reach-SoundSlots here k = k
  Reach-SoundSlots (next r t) k = Turn-SoundSlots t (Reach-SoundSlots r k)

  -- Where the settings load without an exception, every slot is sound in every state that the
  -- gateway reaches from its start, in whatever order its tasks take their rounds, whatever entries
  -- arrive on the streams, and whatever Redis and TWS answer and do in between: a slot that says it
  -- is connected has a session and is not in maintenance, none is left between two states, and the
  -- index of the client id is in range.
  pub gateway-AllSound :
      (environ : Fields) (file : Json) (s : GatewaySettings) (now : Float) (wr : Writer) (w : W)
      (h : Market × W)
      → load_settings py environ file ≡ returned s
      → Reach (new_live now s.slots wr, w) h
      → AllSound h.0.live.slots
  unfolding new_live
  gateway-AllSound environ file s now wr w h loaded r =
      Reach-SoundSlots r (load_settings-AllSound py environ file s loaded)
