-- ===== src/RedisKeys.antt =====
-- src/bifrost_plugin/ib_gateway/redis_keys.py: the key names on redis-ib.
use bifrost_platform_plugin.Prelude.{ℕ, List, [], ◌∷◌, ◌++◌}
use bifrost_platform_plugin.Text.{Text, txt, strip, upper}
use bifrost_platform_plugin.Effects.{Outcome, returned, raised, value_error}

abbrev pub ib_ingester_health_key : Text
ib_ingester_health_key = txt "bifrost:health:ws_ib_ingestor"

abbrev pub ib_ingester_channel : Text
ib_ingester_channel = txt "ib:ingester:channel"

abbrev pub ib_ingester_tick_prefix : Text
ib_ingester_tick_prefix = txt "ib:ingester:tick:"

abbrev pub ib_ingester_tick_ttl_sec : ℕ
ib_ingester_tick_ttl_sec = 300

abbrev pub ib_ingester_subscriptions_key : Text
ib_ingester_subscriptions_key = txt "ib:ingester:meta:subscriptions"

abbrev pub ib_ingester_on_demand_stk : Text
ib_ingester_on_demand_stk = txt "ib:ingester:control:on_demand_stk"

abbrev pub ib_ingester_on_demand_stk_ts : Text
ib_ingester_on_demand_stk_ts = txt "ib:ingester:control:on_demand_stk_ts"

abbrev pub ib_option_cache_prefix : Text
ib_option_cache_prefix = txt "ib:option:cache:"

abbrev pub ib_option_cache_ttl_sec : ℕ
ib_option_cache_ttl_sec = 300

abbrev pub ib_option_on_demand_set : Text
ib_option_on_demand_set = txt "ib:option:control:on_demand_opt"

abbrev pub ib_option_on_demand_ts : Text
ib_option_on_demand_ts = txt "ib:option:control:on_demand_opt_ts"

abbrev pub ib_option_cache_meta_refresh_ts : Text
ib_option_cache_meta_refresh_ts = txt "ib:option:cache:meta:last_refresh_ts"

abbrev pub ib_account_agent_health_key : Text
ib_account_agent_health_key = txt "bifrost:health:ws_ib_account_agent"

abbrev pub ib_account_snapshot_key : Text
ib_account_snapshot_key = txt "ib:account:snapshot:v1"

abbrev pub ib_account_notify_channel : Text
ib_account_notify_channel = txt "ib:account:notify"

abbrev pub ib_operator_health_key : Text
ib_operator_health_key = txt "bifrost:health:ws_ib_operator"

abbrev pub ib_operator_cmd_stream : Text
ib_operator_cmd_stream = txt "ib:operator:cmd"

abbrev pub ib_operator_env_cmd_streams : List Text
ib_operator_env_cmd_streams = txt "ib:operator:cmd:dev" ∷ txt "ib:operator:cmd:stg" ∷ []

abbrev pub ib_operator_consumer_group : Text
ib_operator_consumer_group = txt "ib-gateway"

abbrev pub ib_operator_result_prefix : Text
ib_operator_result_prefix = txt "ib:operator:result:"

abbrev pub ib_operator_result_ttl_sec : ℕ
ib_operator_result_ttl_sec = 300

abbrev pub ib_gateway_health_prefix : Text
ib_gateway_health_prefix = txt "ib:health:"

abbrev pub ib_gateway_self_heal_key : Text
ib_gateway_self_heal_key = txt "ib:control:gateway_self_heal"

abbrev pub stk_contract_key_suffix : Text
stk_contract_key_suffix = txt "|STK|||"

unfoldable pub suffixed : Text → Outcome Text
suffixed [] =
    raised (record { kind = value_error; message = txt "symbol required for stk_contract_key" })
suffixed (c ∷ sym) = returned ((c ∷ sym) ++ stk_contract_key_suffix)

unfoldable pub stk_contract_key : Text → Outcome Text
unfolding strip upper suffixed
stk_contract_key symbol = suffixed (upper (strip symbol))

unfoldable pub ingester_tick_key : Text → Text
ingester_tick_key contract_key = ib_ingester_tick_prefix ++ contract_key

unfoldable pub option_cache_key : Text → Text
option_cache_key contract_key = ib_option_cache_prefix ++ contract_key
