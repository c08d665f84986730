-- ===== src/Mock/OptCache.antt =====
-- _refresh_opt_cache_once and _opt_cache_loop of the mock: premiums from the distance to the strike.
use bifrost_platform_plugin.Prelude.{
  ℕ, zero, suc, ◌+◌, max, List, [], ◌∷◌, Option, none, some, take, if◌then◌else◌, not, pos,
}
use bifrost_platform_plugin.Text.{Text, txt, text_eq}
use bifrost_platform_plugin.Float.{Float, fin, zero_f, add_f, sub_f, max_f}
use bifrost_platform_plugin.Effects.{pure, continue_with, ◌>>=◌, ◌>>◌, Env}
use bifrost_platform_plugin.Json.{number, string, Dict, Python}
use bifrost_platform_plugin.Redis.{Redis}
use bifrost_platform_plugin.Writer.{write_opt_cache, set_opt_cache_last_refresh_ts}
use bifrost_platform_plugin.OnDemand.{OptContract, parse_opt_contract_key, list_fresh_on_demand_opt}
use bifrost_platform_plugin.Live.OptCache.{Waits}
use bifrost_platform_plugin.Mock.State.{
  MockGateway, MockSettings, Random, MockIo, outside, price_or,
}

-- The distance to the strike, on the side that pays.
unfoldable pub intrinsic_of : Text → Float → Float → Float
intrinsic_of right strike und =
    if text_eq right (txt "C")
    then max_f zero_f (sub_f und strike)
    else max_f zero_f (sub_f strike und)

unfoldable pub premium_of : Python → Float → Float → Float
premium_of py intrinsic extra = py.round_to 2 (max_f (fin (pos 50000)) (add_f intrinsic extra))

unfoldable pub mock_quote : Python → OptContract → Text → Float → Float → Dict
mock_quote py c ck mid ts =
    (txt "bid", number (py.round_to 2 (sub_f mid (fin (pos 50000)))))
    ∷ (txt "ask", number (py.round_to 2 (add_f mid (fin (pos 50000)))))
    ∷ (txt "last", number mid)
    ∷ (txt "mid", number mid)
    ∷ (txt "contract_key", string ck)
    ∷ (txt "symbol", string c.symbol)
    ∷ (txt "sec_type", string (txt "OPT"))
    ∷ (txt "expiry", string c.expiry)
    ∷ (txt "strike", number c.strike)
    ∷ (txt "option_right", string c.right)
    ∷ (txt "updated_ts", number ts)
    ∷ (txt "ts", number ts)
    ∷ []

module _ {W : Type 0} (rds : Redis W) (py : Python) (env : Env W) (random : Random W)
    (waits : Waits W) (read_float : Text → Option Float) (settings : MockSettings) where
  unfoldable pub write_quote : OptContract → Text → MockIo W (Unit {0})
  write_quote c ck (mock, w) =
      let intrinsic =
        intrinsic_of c.right c.strike (price_or (fin (pos 100000000)) c.symbol mock.prices) in
      let u = random.uniform (fin (pos 500000)) (fin (pos 2500000)) w in
      outside
        (write_opt_cache rds py env ck
          (mock_quote py c ck (premium_of py intrinsic u.0) (env.now u.1)))
        (mock, u.1)

  -- 1 for a key that was written, 0 for one that does not parse.
  unfoldable pub quote_parsed : Text → Option OptContract → MockIo W ℕ
  quote_parsed ck none = pure 0
  quote_parsed ck (some c) = write_quote c ck >> pure 1

  -- The loop over the fresh keys.
  unfoldable pub quote_keys : List Text → MockIo W ℕ
  quote_keys [] = pure 0
  quote_keys (ck ∷ more) = quote_parsed ck (parse_opt_contract_key read_float ck) >>= λ here.
      quote_keys more >>= λ later. pure (here + later)

  unfoldable pub refresh_fresh : List Text → MockIo W ℕ
  refresh_fresh fresh =
      quote_keys (take (max 1 settings.opt.opt_cache_max_contracts) fresh) >>= λ refreshed.
      outside (λ w. set_opt_cache_last_refresh_ts rds py env (some (env.now w)) w) >> pure refreshed

  unfoldable pub refresh_all : MockIo W ℕ
  refresh_all (mock, w) =
      let fresh =
        list_fresh_on_demand_opt read_float rds settings.opt.on_demand_opt_max_age_sec (env.now w)
          w in
      continue_with refresh_fresh fresh.0 (mock, fresh.1)

  unfoldable pub refresh_opt_cache_once : MockIo W ℕ
  refresh_opt_cache_once = if not settings.opt.opt_cache_enabled then pure 0 else refresh_all

  -- One round of _opt_cache_loop; what a refresh raises is logged.
  unfoldable pub opt_cache_round : MockGateway × W → MockGateway × W
  opt_cache_round (mock, w) =
      let r = refresh_opt_cache_once (mock, w) in
      if not settings.opt.opt_cache_enabled
      then (mock, env.sleep 5 w)
      else (r.1.0, waits.sleep (max_f (fin (pos 1000000)) settings.opt.opt_cache_refresh_sec) r.1.1)

  -- At most `fuel` rounds, while the stop event is not set.
  unfoldable pub opt_cache_loop : ℕ → MockGateway × W → MockGateway × W
  opt_cache_loop zero g = g
  opt_cache_loop (suc fuel) g =
      let more = opt_cache_loop fuel (opt_cache_round g) in if env.stopped g.1 then g else more
