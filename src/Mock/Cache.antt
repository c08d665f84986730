-- ===== src/Mock/Cache.antt =====
-- How much a refresh of the mock's option cache writes.
use bifrost_platform_plugin.Prelude.{
  ℕ, ◌+◌, ◌≤◌, max, ◌≡◌, ◌⊎◌, refl, if◌then◌else◌, Bool, true, false, not, List, [], ◌∷◌, Option,
  none, some, take, length, length-take, arith, inl, inr,
}
use bifrost_platform_plugin.Text.{Text}
use bifrost_platform_plugin.Float.{Float}
use bifrost_platform_plugin.Effects.{returned, pure, Env}
use bifrost_platform_plugin.Effects.Returns.{
  Holds, Returns, Returns-then, continue-Returns, Returns-bind, Returns-if,
}
use bifrost_platform_plugin.Json.{Python}
use bifrost_platform_plugin.Redis.{Redis}
use bifrost_platform_plugin.OnDemand.{OptContract, parse_opt_contract_key, list_fresh_on_demand_opt}
use bifrost_platform_plugin.Live.OptCache.{Waits}
use bifrost_platform_plugin.Mock.State.{MockGateway, MockSettings, Random, MockIo, outside}
use bifrost_platform_plugin.Mock.OptCache.{
  write_quote, quote_parsed, quote_keys, refresh_fresh, refresh_all, refresh_opt_cache_once,
}

module _ {W : Type 0} (rds : Redis W) (py : Python) (env : Env W) (random : Random W)
    (waits : Waits W) (read_float : Text → Option Float) (settings : MockSettings) where
  -- What is returned is at most `n`.
  abbrev AtMost : ℕ → MockIo W ℕ → Type 0
  AtMost n = Returns (λ k. k ≤ n)

  quote_parsed-AtMost :
      (ck : Text) (c : Option OptContract)
      → AtMost 1 (quote_parsed rds py env random waits read_float settings ck c)
  unfolding quote_parsed
  quote_parsed-AtMost ck none g = omega arith
  quote_parsed-AtMost ck (some c) g =
      Returns-bind (λ k. k ≤ 1) (write_quote rds py env random waits read_float settings c ck)
        (λ u. pure 1) (λ u g. omega arith) g

  quote_keys-AtMost :
      (keys : List Text)
      → AtMost (length keys) (quote_keys rds py env random waits read_float settings keys)
  unfolding quote_keys
  quote_keys-AtMost [] = λ g. omega arith
  quote_keys-AtMost (ck ∷ more) =
      Returns-then (λ k. k ≤ 1) (λ k. k ≤ length (ck ∷ more))
        (quote_parsed rds py env random waits read_float settings ck
          (parse_opt_contract_key read_float ck))
        _ (quote_parsed-AtMost ck (parse_opt_contract_key read_float ck))
        (λ here one.
          Returns-then (λ k. k ≤ length more) (λ k. k ≤ length (ck ∷ more))
            (quote_keys rds py env random waits read_float settings more)
            (λ later. pure (here + later)) (quote_keys-AtMost more) (λ later few g. omega arith))

  refresh_fresh-AtMost :
      (fresh : List Text)
      → AtMost
          (max 1 settings.opt.opt_cache_max_contracts)
          (refresh_fresh rds py env random waits read_float settings fresh)
  unfolding refresh_fresh
  refresh_fresh-AtMost fresh =
      let cap = max 1 settings.opt.opt_cache_max_contracts in
      Returns-then (λ k. k ≤ length (take cap fresh)) (λ k. k ≤ cap)
        (quote_keys rds py env random waits read_float settings (take cap fresh)) _
        (quote_keys-AtMost (take cap fresh))
        (λ refreshed few.
          Returns-bind (λ k. k ≤ cap) (outside _) (λ u. pure refreshed)
            (λ u g. let short = length-take cap fresh in omega arith))

  refresh_all-AtMost :
      AtMost
        (max 1 settings.opt.opt_cache_max_contracts)
        (refresh_all rds py env random waits read_float settings)
  unfolding refresh_all
  refresh_all-AtMost (mock, w) =
      continue-Returns (λ n. n ≤ max 1 settings.opt.opt_cache_max_contracts)
        (refresh_fresh rds py env random waits read_float settings)
        (list_fresh_on_demand_opt read_float rds settings.opt.on_demand_opt_max_age_sec (env.now w)
          w).0
        (mock, _) refresh_fresh-AtMost

  -- A refresh of the mock's option cache that returns reports at most as many written quotes as the
  -- setting allows, one at least. It returns 0 and does nothing, or the cache is enabled.
  pub mock_refresh_bounds :
      (mock : MockGateway) (w : W)
      → Holds
          (λ n. n ≤ max 1 settings.opt.opt_cache_max_contracts)
          (refresh_opt_cache_once rds py env random waits read_float settings (mock, w)).0
        × ((refresh_opt_cache_once rds py env random waits read_float settings (mock, w)
              ≡ (returned 0, (mock, w)))
            ⊎ (settings.opt.opt_cache_enabled ≡ true))
  unfolding refresh_opt_cache_once
  mock_refresh_bounds mock w = (
    Returns-if (λ n. n ≤ max 1 settings.opt.opt_cache_max_contracts)
        (not settings.opt.opt_cache_enabled) _ _ (λ g. omega arith) refresh_all-AtMost (mock, w),
    off_or_on settings.opt.opt_cache_enabled (pure 0)
        (refresh_all rds py env random waits read_float settings),
  )
    where
      off_or_on :
          (b : Bool) (m n : MockIo W ℕ)
          → ((if not b then m else n) (mock, w) ≡ m (mock, w)) ⊎ (b ≡ true)
      off_or_on true m n = inr refl
      off_or_on false m n = inl refl
