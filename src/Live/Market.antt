-- ===== src/Live/Market.antt =====
-- _market_loop: the account snapshot, the streams and the ticks of a round.
use bifrost_platform_plugin.Prelude.{
  ℕ, zero, suc, Bool, false, not, ◌||◌, List, [], ◌∷◌, ◌++◌, Option, none, some, if◌then◌else◌, pos,
  length,
}
use bifrost_platform_plugin.Text.{Text, txt, text_eq}
use bifrost_platform_plugin.Float.{Float, nan, fin}
use bifrost_platform_plugin.Effects.{Exn, Outcome, returned, raised, Io, continue_with, ◌>>=◌, Env}
use bifrost_platform_plugin.Json.{
  boolean, integer, number, string, Dict, dicts, number_or_null, Python,
}
use bifrost_platform_plugin.Redis.{Redis}
use bifrost_platform_plugin.RedisKeys.{stk_contract_key}
use bifrost_platform_plugin.Writer.{Writer, write_account_snapshot, write_tick}
use bifrost_platform_plugin.Connection.{Tws, TwsSlotConfig, SlotConnection, sync_connection_state}
use bifrost_platform_plugin.Ib.{TickerView, Ib}
use bifrost_platform_plugin.IbOps.OpenOrders.{fetch_open_orders}
use bifrost_platform_plugin.IbOps.Executions.{fetch_executions}
use bifrost_platform_plugin.Live.State.{Live, find_slot, state_of, host_slot, host_ok}
use bifrost_platform_plugin.Live.Orders.{OrderCache, OrderReads, refresh_order_reads}
use bifrost_platform_plugin.Live.MarketData.{
  Streams, StreamSettings, Feed, reconcile_host_market_data,
}
use bifrost_platform_plugin.Live.OptCache.{note_host}
use bifrost_platform_plugin.Live.Commands.{session_of}
use bifrost_platform_plugin.Live.Accounts.{WithinRows, Marked, Tour, gather, drop_ghosts}

-- What the loop reads and writes of the gateway. `_last_snapshot_write_at`, which nothing reads, is
-- left out.
pub record Market : Type 0 where
  pub live : Live
  pub last_reconcile_at : Float
  pub orders : OrderCache
  pub writer : Writer

-- The values of the ticker of a symbol, and its midpoint.
abbrev pub Tickers : Type 0 → Type 0
Tickers W = Text → W → TickerView × Option Float

-- The seconds to sleep before the next round.
abbrev pub MarketIo : Type 0 → Type 0
MarketIo W = Io (Market × W) ℕ

unfoldable pub float_or_none : Option Float → Option Float
float_or_none none = none
float_or_none (some nan) = none
float_or_none (some x) = some x

unfoldable pub has_ghost : List Marked → Bool
has_ghost [] = false
has_ghost ((b, cfg, sc) ∷ slots) = b || has_ghost slots

abbrev pub unmark : List Marked → List (TwsSlotConfig × SlotConnection)
unmark [] = []
unmark ((b, cfg, sc) ∷ slots) = (cfg, sc) ∷ unmark slots

-- The slot of that name after one of its methods.
unfoldable pub replace_slot :
    Text
    → SlotConnection
    → List (TwsSlotConfig × SlotConnection)
    → List (TwsSlotConfig × SlotConnection)
replace_slot name sc' [] = []
replace_slot name sc' ((cfg, sc) ∷ slots) =
    if text_eq name cfg.slot then (cfg, sc') ∷ slots else (cfg, sc) ∷ replace_slot name sc' slots

abbrev pub set_slots : List (TwsSlotConfig × SlotConnection) → Market → Market
set_slots slots m = record m { live = record m.live { slots = slots } }

abbrev pub set_tickers : List Text → Market → Market
set_tickers tickers m = record m { live = record m.live { tickers = tickers } }

unfoldable pub clear_if : Bool → Market → Market
clear_if ghosts m = if ghosts then set_tickers [] m else m

-- A key that is absent for None.
abbrev pub optional : Text → Option (List Dict) → Dict
optional key none = []
optional key (some rows) = (key, dicts rows) ∷ []

unfoldable pub snapshot_body : Live → List Dict → OrderCache → Dict
snapshot_body live rows c =
    (txt "host_connected", boolean (state_of (find_slot (txt "host") live.slots)))
    ∷ (txt "secondary_connected", boolean (state_of (find_slot (txt "secondary") live.slots)))
    ∷ (txt "accounts_snapshot", dicts rows)
    ∷ (txt "accounts_count", integer (pos (length rows)))
    ∷ (txt "mode", string (txt "live"))
    ∷ (optional (txt "open_orders") c.open_orders
        ++ optional (txt "last_execution_rows") c.executions)

unfoldable pub tick_payload : TickerView → Option Float → Float → Text → Text → Dict
tick_payload v mid ts contract_key sym =
    (txt "bid", number_or_null (float_or_none v.bid))
    ∷ (txt "ask", number_or_null (float_or_none v.ask))
    ∷ (txt "last", number_or_null (float_or_none v.last))
    ∷ (txt "mid", number_or_null (float_or_none mid))
    ∷ (txt "ts", number ts)
    ∷ (txt "contract_key", string contract_key)
    ∷ (txt "symbol", string sym)
    ∷ (txt "sec_type", string (txt "STK"))
    ∷ []

unfoldable pub seconds_of : Outcome ℕ → ℕ
seconds_of (returned seconds) = seconds
seconds_of (raised e) = 2

module _ {W : Type 0} (rds : Redis W) (py : Python) (env : Env W) (tws : Tws W) (api : Ib W)
    (within_rows : WithinRows W) (feed : Feed W) (view : Tickers W) (strftime : Float → Text)
    (read_float : Text → Option Float) (settings : StreamSettings) where
  -- The reads of one session that _refresh_order_reads makes, within 15 and 20 seconds.
  unfoldable pub order_reads : OrderReads W
  order_reads = record {
    orders = λ ib. within_rows (fin (pos 15000000)) (fetch_open_orders api py ib);
    fills = λ ib.
        within_rows (fin (pos 20000000))
          (fetch_executions api env strftime read_float ib (pos 2) [] false);
  }

  unfoldable pub note_tick : Io (Market × W) (Unit {0})
  note_tick (m, w) = (returned tt, (record m { live = note_host (env.now w) m.live }, w))

  unfoldable pub write_view : Text → Outcome Text → Io (Market × W) (Unit {0})
  write_view sym (raised e) g = (raised e, g)
  write_view sym (returned key) (m, w) =
      let v = view sym w in
      let wrote = write_tick rds py env key (tick_payload v.0 v.1 (env.now w) key sym) w in
      continue_with (λ done. note_tick) wrote.0 (m, wrote.1)

  -- The loop over the tickers.
  unfoldable pub write_ticks : List Text → MarketIo W
  write_ticks [] g = (returned 2, g)
  write_ticks (sym ∷ tickers) g =
      (write_view sym (stk_contract_key sym) >>= λ done. write_ticks tickers) g

  unfoldable pub stream_round : MarketIo W
  stream_round (m, w) =
      let host = session_of (find_slot (txt "host") m.live.slots) in
      let st : Streams = record {
        tickers = m.live.tickers;
        last_reconcile_at = m.last_reconcile_at;
      } in
      let r = reconcile_host_market_data feed rds py env read_float settings host st w in
      let m' = record (set_tickers r.0.tickers m) { last_reconcile_at = r.0.last_reconcile_at } in
      continue_with (λ done. write_ticks r.0.tickers) r.1 (m', r.2)

  unfoldable pub stream_if : List Dict → MarketIo W
  stream_if [] g = (returned 2, g)
  stream_if (row ∷ rows) (m, w) =
      if host_ok m.live then stream_round (m, w) else (returned 2, (m, w))

  -- From the order reads on, with the account rows.
  unfoldable pub publish_rows : List Dict → MarketIo W
  publish_rows rows (m, w) =
      let o = refresh_order_reads order_reads env m.live.slots m.orders w in
      let wrote = write_account_snapshot rds py env m.writer (snapshot_body m.live rows o.0) o.1 in
      continue_with (λ done. stream_if rows) wrote.1
        (record m { orders = o.0; writer = wrote.0 }, wrote.2)

  unfoldable pub after_tour : Tour → Option Exn → MarketIo W
  after_tour t (some e) (m, w) = (raised e, (set_slots (unmark t.slots) m, w))
  after_tour t none (m, w) =
      let d = drop_ghosts tws py api within_rows t.slots w in
      publish_rows t.gathered.1 (clear_if (has_ghost t.slots) (set_slots d.0 m), d.1)

  unfoldable pub account_round : MarketIo W
  account_round (m, w) =
      let t = gather tws py api within_rows m.live.slots ([], []) w in
      after_tour t.0 t.0.failure (m, t.1)

  unfoldable pub market_with : Option (TwsSlotConfig × SlotConnection) → MarketIo W
  market_with none g = (returned 2, g)
  market_with (some (cfg, sc)) (m, w) =
      let s = sync_connection_state tws cfg (record { conn = sc; world = w }) in
      let m' = set_slots (replace_slot (txt "host") s.1.conn m.live.slots) m in
      if not s.0
      then (returned 2, (set_tickers [] m', s.1.world))
      else if not cfg.has_market_data
      then (returned 5, (m', s.1.world))
      else account_round (m', s.1.world)

  -- One round: an exception is logged, and the loop goes on after two seconds.
  unfoldable pub market_round : Market × W → Market × W
  market_round (m, w) =
      let r = market_with (host_slot m.live) (m, w) in (r.1.0, env.sleep (seconds_of r.0) r.1.1)

  -- At most `fuel` rounds, while the stop event is not set.
  unfoldable pub market_loop : ℕ → Market × W → Market × W
  market_loop zero g = g
  market_loop (suc fuel) g =
      let more = market_loop fuel (market_round g) in if env.stopped g.1 then g else more
