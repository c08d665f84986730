-- ===== src/Startup/Load.antt =====
-- load_settings: the settings from the value of the YAML file and the environment.
use bifrost_platform_plugin.Prelude.{Bool, true, List, [], ◌∷◌, none, some, ℤ, pos, pos_part}
use bifrost_platform_plugin.Text.{Text, txt, Fields, get, strip, lower}
use bifrost_platform_plugin.Float.{Float, fin}
use bifrost_platform_plugin.Effects.{other, Outcome, returned, raised}
use bifrost_platform_plugin.Json.{
  Json, null, boolean, integer, number, string, Dict, get_json, or_json, Python,
}
use bifrost_platform_plugin.Connection.{TwsSlotConfig}
use bifrost_platform_plugin.Live.State.{Settings}
use bifrost_platform_plugin.Live.MarketData.{StreamSettings}
use bifrost_platform_plugin.Live.OptCache.{OptSettings}
use bifrost_platform_plugin.Startup.{
  env_bool, block_of, and_then, load_slots, resolve_redis_port, resolve_redis_host,
  default_watchlist, watchlist_symbols,
}

-- The user and the label are what the YAML file holds, where the environment has none.
pub record GatewaySettings : Type 0 where
  pub mode : Text
  pub redis_host : Text
  pub redis_port : ℤ
  pub redis_username : Json
  pub redis_password : Text
  pub redis_db : ℤ
  pub slots : List TwsSlotConfig
  pub watchlist_symbols : List Text
  pub probe_interval_sec : Float
  pub health_ttl_sec : ℤ
  pub env_label : Json
  pub on_demand_max_age_sec : Float
  pub max_stream_stk : ℤ
  pub on_demand_reconcile_sec : Float
  pub opt_cache_enabled : Bool
  pub opt_cache_refresh_sec : Float
  pub opt_cache_pacing_sec : Float
  pub opt_cache_max_contracts : ℤ
  pub on_demand_opt_max_age_sec : Float
  pub opt_cache_one_shot_timeout_sec : Float
  pub opt_cache_stale_warn_sec : Float
  pub self_heal_enabled : Bool
  pub snapshot_stale_reconnect_sec : Float
  pub snapshot_stale_max_before_rollout : ℤ
  pub soft_reconnect_cooldown_sec : Float

-- GatewaySettings()
abbrev pub default_settings : GatewaySettings
default_settings = record {
  mode = txt "mock";
  redis_host = txt "redis-ib.data.svc.cluster.local";
  redis_port = pos 6379;
  redis_username = string (txt "ib-gateway");
  redis_password = [];
  redis_db = pos 0;
  slots = [];
  watchlist_symbols = default_watchlist;
  probe_interval_sec = fin (pos 60000000);
  health_ttl_sec = pos 30;
  env_label = string (txt "platform");
  on_demand_max_age_sec = fin (pos 120000000);
  max_stream_stk = pos 40;
  on_demand_reconcile_sec = fin (pos 5000000);
  opt_cache_enabled = true;
  opt_cache_refresh_sec = fin (pos 30000000);
  opt_cache_pacing_sec = fin (pos 500000);
  opt_cache_max_contracts = pos 40;
  on_demand_opt_max_age_sec = fin (pos 180000000);
  opt_cache_one_shot_timeout_sec = fin (pos 10000000);
  opt_cache_stale_warn_sec = fin (pos 120000000);
  self_heal_enabled = true;
  snapshot_stale_reconnect_sec = fin (pos 90000000);
  snapshot_stale_max_before_rollout = pos 3;
  soft_reconnect_cooldown_sec = fin (pos 60000000);
}

-- os.environ.get(key, "")
unfoldable pub env_text : Text → Fields → Text
env_text key environ = elim (get key environ) [ none ↦ [] | some raw ↦ raw ]

-- os.environ.get(key, value)
unfoldable pub env_json : Text → Fields → Json → Json
env_json key environ value = elim (get key environ) [ none ↦ value | some raw ↦ string raw ]

-- os.environ.get(key) or value: an empty text counts as none
unfoldable pub env_or : Text → Fields → Json → Json
env_or key environ value = or_json (string (env_text key environ)) value

-- `.strip().lower()` of a text; no other value has it.
unfoldable pub mode_of : Json → Outcome Text
mode_of (string s) = returned (lower (strip s))
mode_of v = raised (record { kind = other; message = txt "object has no attribute 'strip'" })

unfoldable pub password_of : Python → Text → Dict → Text
password_of py [] redis_raw =
    py.str_of (or_json (get_json (txt "password") null redis_raw) (string []))
password_of py (c ∷ s) redis_raw = c ∷ s

infixl 5 ◌>>=◌
abbrev ◌>>=◌ : {A B : Type 0} → Outcome A → (A → Outcome B) → Outcome B
r >>= f = and_then r f

-- From the value of the file, null where there is none, and os.environ.
unfoldable pub load_settings : Python → Fields → Json → Outcome GatewaySettings
load_settings py environ file = do
  raw ← block_of file
  mode ←
      mode_of
        (env_json (txt "IB_GATEWAY_MODE") environ (get_json (txt "mode") (string (txt "mock")) raw))
  redis_raw ← block_of (get_json (txt "redis") null raw)
  redis_db ← py.int_of (get_json (txt "db") (integer (pos 0)) redis_raw)
  probe_interval_sec ← py.float_of (get_json (txt "probe_interval_sec") (integer (pos 60)) raw)
  health_ttl_sec ← py.int_of (get_json (txt "health_ttl_sec") (integer (pos 30)) raw)
  on_demand_max_age_sec ←
      py.float_of (get_json (txt "on_demand_max_age_sec") (integer (pos 120)) raw)
  max_stream_stk ← py.int_of (get_json (txt "max_stream_stk") (integer (pos 40)) raw)
  on_demand_reconcile_sec ←
      py.float_of (get_json (txt "on_demand_reconcile_sec") (integer (pos 5)) raw)
  opt_cache_refresh_sec ← py.float_of (
      env_or (txt "IB_GATEWAY_OPT_CACHE_REFRESH_SEC") environ
        (get_json (txt "opt_cache_refresh_sec") (integer (pos 30)) raw))
  opt_cache_pacing_sec ← py.float_of (
      env_or (txt "IB_GATEWAY_OPT_CACHE_PACING_SEC") environ
        (get_json (txt "opt_cache_pacing_sec") (number (fin (pos 500000))) raw))
  opt_cache_max_contracts ← py.int_of (
      env_or (txt "IB_GATEWAY_OPT_CACHE_MAX_CONTRACTS") environ
        (get_json (txt "opt_cache_max_contracts") (integer (pos 40)) raw))
  on_demand_opt_max_age_sec ← py.float_of (
      env_or (txt "IB_GATEWAY_ON_DEMAND_OPT_MAX_AGE_SEC") environ
        (get_json (txt "on_demand_opt_max_age_sec") (integer (pos 180)) raw))
  opt_cache_one_shot_timeout_sec ← py.float_of (
      env_or (txt "IB_GATEWAY_OPT_CACHE_ONE_SHOT_TIMEOUT_SEC") environ
        (get_json (txt "opt_cache_one_shot_timeout_sec") (integer (pos 10)) raw))
  opt_cache_stale_warn_sec ← py.float_of (
      env_or (txt "IB_GATEWAY_OPT_CACHE_STALE_WARN_SEC") environ
        (get_json (txt "opt_cache_stale_warn_sec") (integer (pos 120)) raw))
  snapshot_stale_reconnect_sec ← py.float_of (
      env_or (txt "IB_GATEWAY_SNAPSHOT_STALE_SEC") environ
        (get_json (txt "snapshot_stale_reconnect_sec") (integer (pos 90)) raw))
  snapshot_stale_max_before_rollout ← py.int_of (
      env_or (txt "IB_GATEWAY_SNAPSHOT_STALE_MAX_BEFORE_ROLLOUT") environ
        (get_json (txt "snapshot_stale_max_before_rollout") (integer (pos 3)) raw))
  soft_reconnect_cooldown_sec ← py.float_of (
      env_or (txt "IB_GATEWAY_SOFT_RECONNECT_COOLDOWN_SEC") environ
        (get_json (txt "soft_reconnect_cooldown_sec") (integer (pos 60)) raw))
  ib_raw ← block_of (get_json (txt "ib") null raw)
  slots ← load_slots py ib_raw
  returned (record {
    mode = mode;
    redis_host = resolve_redis_host py (env_text (txt "IB_GATEWAY_REDIS_HOST") environ) redis_raw;
    redis_port = resolve_redis_port py (env_text (txt "IB_GATEWAY_REDIS_PORT") environ) redis_raw;
    redis_username =
        env_json (txt "REDIS_IB_USER") environ
          (get_json (txt "username") (string (txt "ib-gateway")) redis_raw);
    redis_password = password_of py (env_text (txt "REDIS_IB_PASSWORD") environ) redis_raw;
    redis_db = redis_db;
    slots = slots;
    watchlist_symbols = watchlist_symbols py (env_text (txt "IB_GATEWAY_WATCHLIST") environ) raw;
    probe_interval_sec = probe_interval_sec;
    health_ttl_sec = health_ttl_sec;
    env_label =
        env_json (txt "IB_GATEWAY_ENV") environ
          (get_json (txt "env") (string (txt "platform")) raw);
    on_demand_max_age_sec = on_demand_max_age_sec;
    max_stream_stk = max_stream_stk;
    on_demand_reconcile_sec = on_demand_reconcile_sec;
    opt_cache_enabled =
        env_bool py (get (txt "IB_GATEWAY_OPT_CACHE_ENABLED") environ)
          (get_json (txt "opt_cache_enabled") (boolean true) raw);
    opt_cache_refresh_sec = opt_cache_refresh_sec;
    opt_cache_pacing_sec = opt_cache_pacing_sec;
    opt_cache_max_contracts = opt_cache_max_contracts;
    on_demand_opt_max_age_sec = on_demand_opt_max_age_sec;
    opt_cache_one_shot_timeout_sec = opt_cache_one_shot_timeout_sec;
    opt_cache_stale_warn_sec = opt_cache_stale_warn_sec;
    self_heal_enabled =
        env_bool py (get (txt "IB_GATEWAY_SELF_HEAL_ENABLED") environ)
          (get_json (txt "self_heal_enabled") (boolean true) raw);
    snapshot_stale_reconnect_sec = snapshot_stale_reconnect_sec;
    snapshot_stale_max_before_rollout = snapshot_stale_max_before_rollout;
    soft_reconnect_cooldown_sec = soft_reconnect_cooldown_sec;
  })

-- What the parts of the gateway read of the settings. A count below 0 is read as 0 is.
unfoldable pub stream_settings_of : GatewaySettings → StreamSettings
stream_settings_of s = record {
  watchlist_symbols = s.watchlist_symbols;
  on_demand_max_age_sec = s.on_demand_max_age_sec;
  max_stream_stk = pos_part s.max_stream_stk;
  on_demand_reconcile_sec = s.on_demand_reconcile_sec;
}

unfoldable pub opt_settings_of : GatewaySettings → OptSettings
opt_settings_of s = record {
  opt_cache_enabled = s.opt_cache_enabled;
  opt_cache_refresh_sec = s.opt_cache_refresh_sec;
  opt_cache_pacing_sec = s.opt_cache_pacing_sec;
  opt_cache_max_contracts = pos_part s.opt_cache_max_contracts;
  on_demand_opt_max_age_sec = s.on_demand_opt_max_age_sec;
  opt_cache_one_shot_timeout_sec = s.opt_cache_one_shot_timeout_sec;
}

unfoldable pub heal_settings_of : GatewaySettings → Settings
heal_settings_of s = record {
  self_heal_enabled = s.self_heal_enabled;
  snapshot_stale_reconnect_sec = s.snapshot_stale_reconnect_sec;
  snapshot_stale_max_before_rollout = pos_part s.snapshot_stale_max_before_rollout;
  soft_reconnect_cooldown_sec = s.soft_reconnect_cooldown_sec;
  opt_cache_stale_warn_sec = s.opt_cache_stale_warn_sec;
}
