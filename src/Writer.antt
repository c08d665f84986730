-- ===== src/Writer.antt =====
-- src/bifrost_plugin/ib_gateway/writer.py: what the gateway writes to redis-ib.
pub mod Laws
use bifrost_platform_plugin.Prelude.{
  ℕ, ◌+◌, Bool, true, false, ◌||◌, List, [], ◌∷◌, ◌++◌, Option, none, some, if◌then◌else◌, ℤ, pos,
  map,
}
use bifrost_platform_plugin.Text.{
  Text, txt, Fields, strip, lower, mem_text, contains, sort_text, show_ℤ,
}
use bifrost_platform_plugin.Float.{Float}
use bifrost_platform_plugin.Effects.{
  Exn, Outcome, returned, raised, Io, pure, raise, attempt, lift, gets, ◌>>=◌, ◌>>◌, Env,
}
use bifrost_platform_plugin.Json.{
  Json, null, integer, number, string, Dict, put, merge, get_json, or_json, Python,
}
use bifrost_platform_plugin.Redis.{Redis, PipeCommand, delete, sadd}
use bifrost_platform_plugin.RedisKeys.{
  ib_account_agent_health_key, ib_account_notify_channel, ib_account_snapshot_key,
  ib_gateway_health_prefix, ib_gateway_self_heal_key, ib_ingester_channel, ib_ingester_health_key,
  ib_ingester_subscriptions_key, ib_ingester_tick_prefix, ib_ingester_tick_ttl_sec,
  ib_option_cache_meta_refresh_ts, ib_option_cache_prefix, ib_option_cache_ttl_sec,
  ib_operator_health_key, ib_operator_result_prefix, ib_operator_result_ttl_sec,
}

-- The fields of GatewayRedisWriter beside its client, and IB_GATEWAY_GIT_SHA.
pub record Writer : Type 0 where
  pub env : Text
  pub account_version : ℕ
  pub git_sha : Text

-- The keyword arguments of write_self_heal_status.
pub record SelfHealStatus : Type 0 where
  pub last_action : Text
  pub last_action_ts : Float
  pub stale_streak : ℕ
  pub cooldown_until : Float
  pub reason : Text
  pub self_heal_enabled : Bool
  pub rollout_recommended : Bool
  pub snapshot_age_sec : Option Float

abbrev true_or_false : Bool → Text
true_or_false b = if b then txt "true" else txt "false"

-- {k: str(v) for k, v in fields.items()}
unfoldable pub mapping_of : Python → Dict → Fields
mapping_of py fields = map (λ f. (f.0, py.str_of f.1)) fields

unfoldable pub health_fields : Writer → Float → Dict → Dict
unfolding put merge
health_fields wr now fields = put (txt "updated_at") (number now) (
    put (txt "git_sha") (string wr.git_sha)
      (merge ((txt "env", string wr.env) ∷ (txt "plugin", string (txt "ib-gateway")) ∷ []) fields))

unfoldable pub is_wrong_type : Exn → Bool
unfolding contains lower
is_wrong_type e =
    contains (txt "wrongtype") (lower e.message) || contains (txt "wrong kind") (lower e.message)

unfoldable pub is_on : Text → Bool
unfolding mem_text strip lower
is_on raw = mem_text (lower (strip raw)) (txt "1" ∷ txt "true" ∷ txt "yes" ∷ txt "on" ∷ [])

unfoldable pub enabled_of : Outcome (Option Text) → Bool
unfolding is_on
enabled_of (returned none) = true
enabled_of (returned (some raw)) = is_on raw
enabled_of (raised e) = true

unfoldable pub status_fields : Writer → Float → SelfHealStatus → Dict
unfolding put
status_fields wr now s = elim s.snapshot_age_sec [
  | none ↦ fields
  | some age ↦ put (txt "snapshot_age_sec") (number age) fields
]
  where
    fields : Dict
    fields =
        (txt "last_action", string s.last_action)
        ∷ (txt "last_action_ts", number s.last_action_ts)
        ∷ (txt "stale_streak", integer (pos s.stale_streak))
        ∷ (txt "cooldown_until", number s.cooldown_until)
        ∷ (txt "reason", string s.reason)
        ∷ (txt "enabled", string (true_or_false s.self_heal_enabled))
        ∷ (txt "rollout_recommended", string (true_or_false s.rollout_recommended))
        ∷ (txt "updated_at", number now)
        ∷ (txt "env", string wr.env)
        ∷ []

unfoldable pub subscription_commands : List Text → List PipeCommand
unfolding sort_text
subscription_commands [] = delete ib_ingester_subscriptions_key ∷ []
subscription_commands (k ∷ keys) =
    delete ib_ingester_subscriptions_key
    ∷ sadd ib_ingester_subscriptions_key (sort_text (k ∷ keys))
    ∷ []

module _ {W : Type 0} (rds : Redis W) (py : Python) (env : Env W) where
  unfoldable pub write_tick : Text → Dict → Io W (Unit {0})
  unfolding get_json
  write_tick contract_key tick = do
    body ← lift (py.dumps tick)
    rds.set (ib_ingester_tick_prefix ++ contract_key) body (some ib_ingester_tick_ttl_sec)
    note ← lift (py.dumps note_fields)
    rds.publish ib_ingester_channel note
    where
      note_fields : Dict
      note_fields =
          (txt "contract_key", string contract_key) ∷ (txt "ts", get_json (txt "ts") null tick) ∷ []

  unfoldable pub write_opt_cache_at : Text → Dict → Io W (Unit {0})
  write_opt_cache_at [] quote = pure tt
  write_opt_cache_at (c ∷ ck) quote = do
    body ← lift (py.dumps quote)
    rds.set (ib_option_cache_prefix ++ (c ∷ ck)) body (some ib_option_cache_ttl_sec)

  unfoldable pub write_opt_cache : Text → Dict → Io W (Unit {0})
  unfolding write_opt_cache_at strip
  write_opt_cache contract_key quote = write_opt_cache_at (strip contract_key) quote

  -- with the time that the caller read, or the time of the call
  unfoldable pub set_opt_cache_last_refresh_ts : Option Float → Io W (Unit {0})
  set_opt_cache_last_refresh_ts none = do
    now ← gets env.now
    rds.set ib_option_cache_meta_refresh_ts (py.str_of (number now)) none
  set_opt_cache_last_refresh_ts (some ts) =
      rds.set ib_option_cache_meta_refresh_ts (py.str_of (number ts)) none

  -- the keys of a set, each once
  unfoldable pub set_subscriptions : List Text → Io W (Unit {0})
  unfolding subscription_commands
  set_subscriptions keys = rds.pipeline (subscription_commands keys)

  unfoldable pub recover_hash : Text → Fields → Outcome (Unit {0}) → Io W (Unit {0})
  unfolding is_wrong_type
  recover_hash key mapping (returned done) = pure tt
  recover_hash key mapping (raised e) =
      if is_wrong_type e then (do rds.delete key; rds.hset key mapping) else pure tt

  unfoldable pub write_hash : Text → Dict → Io W (Unit {0})
  unfolding recover_hash mapping_of
  write_hash key fields = do
    first ← attempt (rds.hset key (mapping_of py fields))
    recover_hash key (mapping_of py fields) first

  unfoldable pub write_ingestor_health : Writer → Dict → Io W (Unit {0})
  unfolding health_fields write_hash
  write_ingestor_health wr fields = do
    now ← gets env.now
    write_hash ib_ingester_health_key (health_fields wr now fields)

  unfoldable pub write_account_health : Writer → Dict → Io W (Unit {0})
  unfolding health_fields write_hash
  write_account_health wr fields = do
    now ← gets env.now
    write_hash ib_account_agent_health_key (health_fields wr now fields)

  unfoldable pub write_operator_health : Writer → Dict → Io W (Unit {0})
  unfolding health_fields write_hash
  write_operator_health wr fields = do
    now ← gets env.now
    write_hash ib_operator_health_key (health_fields wr now fields)

  -- The version moves on before the write, and stays if that raises.
  unfoldable pub write_account_snapshot : Writer → Dict → W → Writer × Outcome (Unit {0}) × W
  unfolding put or_json get_json show_ℤ
  write_account_snapshot wr payload w =
      let wr' = record wr { account_version = wr.account_version + 1 } in
      let (r, w') = publish_snapshot wr' w in (wr', r, w')
    where
      publish_snapshot : Writer → Io W (Unit {0})
      publish_snapshot now_wr = do
        version ← lift (
            py.int_of (
              or_json (get_json (txt "version") null payload)
                (integer (pos now_wr.account_version))))
        now ← gets env.now
        updated ←
            lift (py.float_of (or_json (get_json (txt "updated_at") null payload) (number now)))
        raw ← lift (
            py.dumps_compact (
              put (txt "updated_at") (number updated)
                (put (txt "version") (integer version) payload)))
        rds.set ib_account_snapshot_key raw none
        rds.publish ib_account_notify_channel (show_ℤ version)

  unfoldable pub write_operator_result : Text → Dict → Io W (Unit {0})
  write_operator_result req_id envelope = do
    raw ← lift (py.dumps envelope)
    rds.set (ib_operator_result_prefix ++ req_id) raw (some ib_operator_result_ttl_sec)

  unfoldable pub write_self_heal_status : Writer → SelfHealStatus → Io W (Unit {0})
  unfolding write_hash status_fields
  write_self_heal_status wr s = do
    now ← gets env.now
    write_hash ib_gateway_self_heal_key (status_fields wr now s)

  unfoldable pub read_self_heal_enabled : Io W Bool
  unfolding enabled_of
  read_self_heal_enabled = do
    raw ← attempt (rds.hget ib_gateway_self_heal_key (txt "enabled"))
    pure (enabled_of raw)

  unfoldable pub write_plugin_health : Writer → Text → Text → Dict → Io W (Unit {0})
  unfolding merge
  write_plugin_health wr account_id status extra = do
    now ← gets env.now
    body ← lift (
        py.dumps (
          merge
            ((txt "status", string status)
              ∷ (txt "account_id", string account_id)
              ∷ (txt "updated_at", number now)
              ∷ (txt "env", string wr.env)
              ∷ [])
            extra))
    rds.set (ib_gateway_health_prefix ++ account_id) body (some 30)
