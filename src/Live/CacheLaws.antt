-- ===== src/Live/CacheLaws.antt =====
-- How much a refresh of the option cache writes.
use bifrost_platform_plugin.Prelude.{
  ℕ, ◌≤◌, max, ◌≡◌, ◌⊎◌, refl, true, List, [], ◌∷◌, Option, none, some, length, length-take, arith,
  Bool-cases, inl, inr,
}
use bifrost_platform_plugin.Text.{Text}
use bifrost_platform_plugin.Float.{Float}
use bifrost_platform_plugin.Effects.{Outcome, returned, raised, Env}
use bifrost_platform_plugin.Json.{Python}
use bifrost_platform_plugin.Redis.{Redis}
use bifrost_platform_plugin.OnDemand.{OptContract, parse_opt_contract_key, list_fresh_on_demand_opt}
use bifrost_platform_plugin.Connection.{TwsSlotConfig, SlotConnection, is_connected_state}
use bifrost_platform_plugin.Ib.{Ib}
use bifrost_platform_plugin.IbOps.Quotes.{Quote}
use bifrost_platform_plugin.Live.State.{Gate}
use bifrost_platform_plugin.Live.OptCache.{
  OptSettings, Waits, count_write, store_quote, refresh_contract, refresh_parsed, refresh_keys,
  capped, keys_or_none, refresh_session, refresh_if, refresh_opt_cache_once,
}

module _ {W : Type 0} (rds : Redis W) (py : Python) (env : Env W) (api : Ib W) (waits : Waits W)
    (read_float : Text → Option Float) (settings : OptSettings) where
  count_write_at_most :
      (r : Outcome (Unit {0})) (g : Gate W)
      → (count_write rds py env api waits read_float settings r g).0 ≤ 1
  unfolding count_write
  count_write_at_most (returned u) (live, w) = omega arith
  count_write_at_most (raised e) g = omega arith

  store_quote_at_most :
      (c : OptContract) (ck : Text) (q : Option Quote) (g : Gate W)
      → (store_quote rds py env api waits read_float settings c ck q g).0 ≤ 1
  unfolding store_quote
  store_quote_at_most c ck none g = omega arith
  store_quote_at_most c ck (some q) (live, w) = count_write_at_most _ _

  refresh_parsed_at_most :
      (ib : ℕ) (ck : Text) (more : List Text) (p : Option OptContract) (g : Gate W)
      → (refresh_parsed rds py env api waits read_float settings ib ck more p g).0 ≤ 1
  unfolding refresh_parsed refresh_contract
  refresh_parsed_at_most ib ck more none g = omega arith
  refresh_parsed_at_most ib ck more (some c) (live, w) = store_quote_at_most c ck _ _

  refresh_keys_at_most :
      (ib : ℕ) (keys : List Text) (g : Gate W)
      → (refresh_keys rds py env api waits read_float settings ib keys g).0 ≤ length keys
  unfolding refresh_keys
  refresh_keys_at_most ib [] g = omega arith
  refresh_keys_at_most ib (ck ∷ more) g =
      let p = parse_opt_contract_key read_float ck in
      let here = refresh_parsed rds py env api waits read_float settings ib ck more p g in
      let first : here.0 ≤ 1 = refresh_parsed_at_most ib ck more p g in
      let later = refresh_keys_at_most ib more here.1 in omega arith

  refresh_if_at_most :
      (ib : Option ℕ) (g : Gate W)
      → (refresh_if rds py env api waits read_float settings ib g).0
        ≤ max 1 settings.opt_cache_max_contracts
  unfolding refresh_if refresh_session capped
  refresh_if_at_most none g = omega arith
  refresh_if_at_most (some ib) (live, w) =
      let fresh =
        list_fresh_on_demand_opt read_float rds settings.on_demand_opt_max_age_sec (env.now w) w in
      let kept = keys_or_none rds py env api waits read_float settings fresh.0 in
      let all =
        refresh_keys_at_most ib (capped rds py env api waits read_float settings kept)
          (live, fresh.1) in
      let few = length-take (max 1 settings.opt_cache_max_contracts) kept in omega arith

  refresh_if_ends :
      (ib : Option ℕ) (g : Gate W)
      → (refresh_if rds py env api waits read_float settings ib g ≡ (0, g))
        ⊎ ((true ≡ true) × (n : ℕ) × (ib ≡ some n))
  unfolding refresh_if
  refresh_if_ends none g = inl refl
  refresh_if_ends (some ib) g = inr (refl, ib, refl)

  -- A refresh of the option cache reports at most as many written quotes as the setting allows,
  -- one at least. It leaves the gateway and the world as they were and reports none, or the slot
  -- is connected and has a session.
  pub refresh_bounds :
      (cfg : TwsSlotConfig) (sc : SlotConnection) (g : Gate W)
      → let r = refresh_opt_cache_once rds py env api waits read_float settings (cfg, sc) g in
        (r.0 ≤ max 1 settings.opt_cache_max_contracts)
        × ((r ≡ (0, g)) ⊎ ((is_connected_state sc.state ≡ true) × (ib : ℕ) × (sc.ib ≡ some ib)))
  unfolding refresh_opt_cache_once
  refresh_bounds cfg sc g = elim (Bool-cases (is_connected_state sc.state)) [
    | inl up ↦ rw up (refresh_if_at_most sc.ib g, refresh_if_ends sc.ib g)
    | inr down ↦ rw down (omega arith, inl refl)
  ]
