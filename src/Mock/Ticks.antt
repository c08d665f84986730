-- ===== src/Mock/Ticks.antt =====
-- _tick_loop: a random step of each desired symbol's price, and what it publishes.
use bifrost_platform_plugin.Prelude.{
  ℕ, zero, suc, true, List, [], ◌∷◌, Option, if◌then◌else◌, pos, negsuc, map, length, leb,
}
use bifrost_platform_plugin.Text.{Text, txt}
use bifrost_platform_plugin.Float.{Float, fin, add_f, sub_f, max_f, mul_f, scale_f}
use bifrost_platform_plugin.Effects.{returned, Io, lift, for_each, ◌>>=◌, ◌>>◌, continue_with, Env}
use bifrost_platform_plugin.Json.{boolean, number, string, Dict, dicts, Python}
use bifrost_platform_plugin.Redis.{Redis}
use bifrost_platform_plugin.RedisKeys.{stk_contract_key}
use bifrost_platform_plugin.Writer.{write_tick, set_subscriptions, write_account_snapshot}
use bifrost_platform_plugin.OnDemand.{list_fresh_on_demand_stk, build_desired_stk_symbols}
use bifrost_platform_plugin.Connection.{TwsSlotConfig}
use bifrost_platform_plugin.Live.MarketData.{stream_keys}
use bifrost_platform_plugin.Mock.State.{
  MockGateway, MockSettings, Random, MockIo, outside, price_or, put_price, mock_accounts,
  rest_after,
}

-- base * (1 + u)
unfoldable pub moved : Float → Float → Float
moved base u = mul_f base (add_f (fin (pos 1000000)) u)

-- max(0.01, round(base * 0.0005, 2))
unfoldable pub spread_of : Python → Float → Float
spread_of py base = max_f (fin (pos 10000)) (py.round_to 2 (mul_f base (fin (pos 500))))

unfoldable pub bid_of : Python → Float → Float
bid_of py base = py.round_to 2 (sub_f base (spread_of py base))

unfoldable pub ask_of : Python → Float → Float
ask_of py base = py.round_to 2 (add_f base (spread_of py base))

unfoldable pub mock_tick : Python → Float → Float → Text → Text → Dict
mock_tick py base ts contract_key sym =
    (txt "bid", number (bid_of py base))
    ∷ (txt "ask", number (ask_of py base))
    ∷ (txt "last", number (py.round_to 2 base))
    ∷ (txt "mid", number (py.round_to 4 (scale_f 1 2 (add_f (bid_of py base) (ask_of py base)))))
    ∷ (txt "ts", number ts)
    ∷ (txt "contract_key", string contract_key)
    ∷ (txt "symbol", string sym)
    ∷ (txt "sec_type", string (txt "STK"))
    ∷ []

-- self._settings.watchlist_symbols or list(self._prices.keys())
unfoldable pub watchlist_or_priced : List Text → List (Text × Float) → List Text
watchlist_or_priced [] prices = map (λ p. p.0) prices
watchlist_or_priced (s ∷ watchlist) prices = s ∷ watchlist

unfoldable pub mock_snapshot : List TwsSlotConfig → Dict
mock_snapshot slots =
    (txt "host_connected", boolean true)
    ∷ (txt "secondary_connected", boolean (leb 2 (length slots)))
    ∷ (txt "accounts_snapshot", dicts (mock_accounts slots))
    ∷ (txt "mode", string (txt "mock"))
    ∷ []

module _ {W : Type 0} (rds : Redis W) (py : Python) (env : Env W) (random : Random W)
    (read_float : Text → Option Float) (settings : MockSettings) where
  -- The symbol's new price, in the gateway.
  unfoldable pub step_price : Text → MockIo W Float
  step_price sym (mock, w) =
      let u = random.uniform (fin (negsuc 1999)) (fin (pos 2000)) w in
      let base = moved (price_or (fin (pos 100000000)) sym mock.prices) u.0 in
      (returned base, (record mock { prices = put_price sym base mock.prices }, u.1))

  unfoldable pub publish_tick : Text → Float → Io W (Unit {0})
  publish_tick sym base w =
      (lift (stk_contract_key sym) >>= λ key.
      write_tick rds py env key (mock_tick py base (env.now w) key sym))
        w

  -- The loop's body for one symbol.
  unfoldable pub tick_symbol : Text → MockIo W (Unit {0})
  tick_symbol sym = step_price sym >>= λ base. outside (publish_tick sym base)

  unfoldable pub publish_snapshot : MockIo W (Unit {0})
  publish_snapshot (mock, w) =
      let wrote = write_account_snapshot rds py env mock.writer (mock_snapshot settings.slots) w in
      (wrote.1, (record mock { writer = wrote.0 }, wrote.2))

  unfoldable pub tick_symbols : List Text → MockIo W (Unit {0})
  tick_symbols symbols =
      for_each tick_symbol symbols
      >> (outside (lift (stream_keys symbols) >>= set_subscriptions rds py env) >> publish_snapshot)

  unfoldable pub mock_symbols : MockGateway → List Text → List Text
  mock_symbols mock on_demand =
      (build_desired_stk_symbols
        (watchlist_or_priced settings.streams.watchlist_symbols mock.prices) on_demand
        settings.streams.max_stream_stk).0

  -- One round, up to the wait of five seconds.
  unfoldable pub tick_round : MockIo W (Unit {0})
  tick_round (mock, w) =
      let fresh =
        list_fresh_on_demand_stk read_float rds settings.streams.on_demand_max_age_sec (env.now w)
          w in
      continue_with (λ on_demand. tick_symbols (mock_symbols mock on_demand)) fresh.0
        (mock, fresh.1)

  -- At most `fuel` rounds, while the stop event is not set. An exception ends the loop.
  unfoldable pub tick_loop : ℕ → MockIo W (Unit {0})
  tick_loop zero g = (returned tt, g)
  tick_loop (suc fuel) g =
      let done = tick_round g in
      let r = rest_after env 5 done.0 done.1 in
      let more = continue_with (λ u. tick_loop fuel) r.0 r.1 in
      if env.stopped g.1 then (returned tt, g) else more
