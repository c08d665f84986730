-- ===== src/Live/OptCache.antt =====
-- _register_on_demand_opt, _refresh_opt_cache_once and _opt_cache_loop: the quotes of the option
-- contracts that clients asked for.
use bifrost_platform_plugin.Prelude.{
  ℕ, zero, suc, ◌+◌, Bool, not, List, [], ◌∷◌, Option, none, some, max, take, map, if◌then◌else◌,
  pos,
}
use bifrost_platform_plugin.Text.{Text, txt, strip, split, text_eq}
use bifrost_platform_plugin.Float.{Float, fin, ltb_f, max_f, zero_f}
use bifrost_platform_plugin.Effects.{Outcome, returned, raised, Io, pure, attempt, gets, ◌>>=◌, Env}
use bifrost_platform_plugin.Json.{number, string, Dict, Python}
use bifrost_platform_plugin.Redis.{Redis, sadd, hset}
use bifrost_platform_plugin.RedisKeys.{ib_option_on_demand_set, ib_option_on_demand_ts}
use bifrost_platform_plugin.Writer.{write_opt_cache, set_opt_cache_last_refresh_ts}
use bifrost_platform_plugin.OnDemand.{OptContract, parse_opt_contract_key, list_fresh_on_demand_opt}
use bifrost_platform_plugin.OnDemand.Opt.{opt_key}
use bifrost_platform_plugin.Connection.{TwsSlotConfig, SlotConnection, is_connected_state}
use bifrost_platform_plugin.Ib.{Ib}
use bifrost_platform_plugin.IbOps.Quotes.{Quote, fetch_option_quote_one_shot}
use bifrost_platform_plugin.IbOps.Snapshot.{value_of}
use bifrost_platform_plugin.Live.State.{Live, Gate, host_slot}

-- What the option cache reads of GatewaySettings.
pub record OptSettings : Type 0 where
  pub opt_cache_enabled : Bool
  pub opt_cache_refresh_sec : Float
  pub opt_cache_pacing_sec : Float
  -- max(1, int(...)) reads a number below 0 as it reads 0
  pub opt_cache_max_contracts : ℕ
  pub on_demand_opt_max_age_sec : Float
  pub opt_cache_one_shot_timeout_sec : Float

-- asyncio, for waits in seconds: sleep, and wait_for on a quote, which gives the quote's own
-- outcome or cancels it and raises.
pub record Waits (W : Type 0) : Type 0 where
  pub sleep : Float → W → W
  pub within : Float → Io W (Option Quote) → Io W (Option Quote)

-- parts[3].strip() if len(parts) == 5 else str(strike)
unfoldable pub strike_part : Python → Float → List Text → Text
strike_part py strike (a ∷ b ∷ c ∷ s ∷ r ∷ []) = strip s
strike_part py strike _ = py.str_of (number strike)

unfoldable pub registered_key : Python → Text → OptContract → Text
registered_key py raw c =
    opt_key c.symbol c.expiry (strike_part py c.strike (split b'|' (strip raw))) c.right

-- The loop over the keys.
unfoldable pub valid_keys : (Text → Option Float) → Python → List Text → List Text
valid_keys read_float py [] = []
valid_keys read_float py (raw ∷ keys) =
    let rest = valid_keys read_float py keys in
    elim (parse_opt_contract_key read_float raw) [
      | none ↦ rest
      | some c ↦ registered_key py raw c ∷ rest
    ]

unfoldable pub opt_payload : OptContract → Text → Quote → Float → Dict
opt_payload c ck q ts =
    (txt "bid", value_of (λ x. x.bid) (some q))
    ∷ (txt "ask", value_of (λ x. x.ask) (some q))
    ∷ (txt "last", value_of (λ x. x.last) (some q))
    ∷ (txt "mid", value_of (λ x. x.mid) (some q))
    ∷ (txt "contract_key", string ck)
    ∷ (txt "symbol", string c.symbol)
    ∷ (txt "sec_type", string (txt "OPT"))
    ∷ (txt "expiry", string c.expiry)
    ∷ (txt "strike", number c.strike)
    ∷ (txt "option_right", string c.right)
    ∷ (txt "updated_ts", number ts)
    ∷ (txt "ts", number ts)
    ∷ []

-- host.note_message(), on the slot of that name
unfoldable pub note_slot :
    Text → Float → List (TwsSlotConfig × SlotConnection) → List (TwsSlotConfig × SlotConnection)
note_slot name now [] = []
note_slot name now ((cfg, sc) ∷ slots) =
    if text_eq name cfg.slot
    then (cfg, record sc { last_message_at = now }) ∷ slots
    else (cfg, sc) ∷ note_slot name now slots

unfoldable pub note_host : Float → Live → Live
note_host now live = record live { slots = note_slot (txt "host") now live.slots }

unfoldable pub quote_or_none : Outcome (Option Quote) → Option Quote
quote_or_none (returned q) = q
quote_or_none (raised e) = none

module _ {W : Type 0} (rds : Redis W) (py : Python) (env : Env W) (api : Ib W) (waits : Waits W)
    (read_float : Text → Option Float) (settings : OptSettings) where
  -- `if not valid: return`
  unfoldable pub register_keys : List Text → Io W (Unit {0})
  register_keys [] = pure tt
  register_keys (k ∷ keys) = do
    now ← gets env.now
    attempt (
          rds.pipeline (
            sadd ib_option_on_demand_set (k ∷ keys)
            ∷ hset ib_option_on_demand_ts (map (λ key. (key, py.str_of (number now))) (k ∷ keys))
            ∷ []))
        >>= λ r. pure tt

  unfoldable pub register_on_demand_opt : List Text → Io W (Unit {0})
  register_on_demand_opt contract_keys = register_keys (valid_keys read_float py contract_keys)

  -- `if pacing > 0 and i + 1 < len(fresh)`: `more` are the keys that follow.
  unfoldable pub pace : List Text → Gate W → Gate W
  pace [] g = g
  pace (ck ∷ more) (live, w) =
      if ltb_f zero_f settings.opt_cache_pacing_sec
      then (live, waits.sleep (max_f zero_f settings.opt_cache_pacing_sec) w)
      else (live, w)

  unfoldable pub count_write : Outcome (Unit {0}) → Gate W → ℕ × Gate W
  count_write (returned done) (live, w) = (1, (note_host (env.now w) live, w))
  count_write (raised e) g = (0, g)

  -- After the quote: the write, and how many were written.
  unfoldable pub store_quote : OptContract → Text → Option Quote → Gate W → ℕ × Gate W
  store_quote c ck none g = (0, g)
  store_quote c ck (some q) (live, w) =
      let written = write_opt_cache rds py env ck (opt_payload c ck q (env.now w)) w in
      count_write written.0 (live, written.1)

  unfoldable pub mark_progress : Gate W → Gate W
  mark_progress (live, w) = (record live { opt_cache_progress_at = env.now w }, w)

  unfoldable pub one_quote : ℕ → OptContract → W → Outcome (Option Quote) × W
  one_quote ib c =
      waits.within (max_f (fin (pos 1000000)) settings.opt_cache_one_shot_timeout_sec)
        (fetch_option_quote_one_shot api ib c.symbol c.expiry c.strike c.right)

  unfoldable pub refresh_contract : ℕ → Text → List Text → OptContract → Gate W → ℕ × Gate W
  refresh_contract ib ck more c (live, w) =
      let q = one_quote ib c w in
      let stored = store_quote c ck (quote_or_none q.0) (mark_progress (live, q.1)) in
      (stored.0, pace more stored.1)

  -- A key that does not parse is passed over without a wait.
  unfoldable pub refresh_parsed : ℕ → Text → List Text → Option OptContract → Gate W → ℕ × Gate W
  refresh_parsed ib ck more none g = (0, g)
  refresh_parsed ib ck more (some c) g = refresh_contract ib ck more c g

  -- The loop over the fresh keys.
  unfoldable pub refresh_keys : ℕ → List Text → Gate W → ℕ × Gate W
  refresh_keys ib [] g = (0, g)
  refresh_keys ib (ck ∷ more) g =
      let here = refresh_parsed ib ck more (parse_opt_contract_key read_float ck) g in
      let later = refresh_keys ib more here.1 in (here.0 + later.0, later.1)

  unfoldable pub capped : List Text → List Text
  capped fresh = take (max 1 settings.opt_cache_max_contracts) fresh

  unfoldable pub keys_or_none : Outcome (List Text) → List Text
  keys_or_none (returned keys) = keys
  keys_or_none (raised e) = []

  -- With the session of a connected host. list_fresh_on_demand_opt never raises.
  unfoldable pub refresh_session : ℕ → Gate W → ℕ × Gate W
  refresh_session ib (live, w) =
      let fresh =
        list_fresh_on_demand_opt read_float rds settings.on_demand_opt_max_age_sec (env.now w) w in
      let done = refresh_keys ib (capped (keys_or_none fresh.0)) (live, fresh.1) in
      let marked = set_opt_cache_last_refresh_ts rds py env (some (env.now done.1.1)) done.1.1 in
      (done.0, (done.1.0, marked.1))

  unfoldable pub refresh_if : Option ℕ → Gate W → ℕ × Gate W
  refresh_if none g = (0, g)
  refresh_if (some ib) g = refresh_session ib g

  unfoldable pub refresh_opt_cache_once : TwsSlotConfig × SlotConnection → Gate W → ℕ × Gate W
  refresh_opt_cache_once (cfg, sc) g =
      let run = refresh_if sc.ib g in if is_connected_state sc.state then run else (0, g)

  unfoldable pub loop_body : Option (TwsSlotConfig × SlotConnection) → Gate W → Gate W
  loop_body none (live, w) = (live, waits.sleep (fin (pos 2000000)) w)
  loop_body (some host) g =
      let r = refresh_opt_cache_once host g in
      (r.1.0, waits.sleep (max_f (fin (pos 1000000)) settings.opt_cache_refresh_sec) r.1.1)

  -- One round of _opt_cache_loop.
  unfoldable pub opt_cache_round : Gate W → Gate W
  opt_cache_round g =
      let (live, w) = mark_progress g in
      if not settings.opt_cache_enabled
      then (live, waits.sleep (fin (pos 5000000)) w)
      else loop_body (host_slot live) (live, w)

  -- At most `fuel` rounds, while the stop event is not set.
  unfoldable pub opt_cache_loop : ℕ → Gate W → Gate W
  opt_cache_loop zero g = g
  opt_cache_loop (suc fuel) g =
      let more = opt_cache_loop fuel (opt_cache_round g) in if env.stopped g.1 then g else more
