-- ===== src/Examples/Gateway.antt =====
-- The whole gateway: what arrives on an environment's stream, and the option cache.
use bifrost_platform_plugin.Prelude.{
  ℕ, ◌≤◌, max, ◌+◌, ◌≡◌, ◌⊎◌, refl, [], ◌∷◌, true, false, List, Option, none, some, pos,
}
use bifrost_platform_plugin.Text.{Text, txt, Fields, text_eq, mem_text}
use bifrost_platform_plugin.Float.{Float, fin, zero_f}
use bifrost_platform_plugin.Operator.{process_stream}
use bifrost_platform_plugin.Connection.{is_connected_state}
use bifrost_platform_plugin.Live.OptCache.{OptSettings, Waits, refresh_opt_cache_once}
use bifrost_platform_plugin.Live.Commands.{handle_command}
use bifrost_platform_plugin.Live.Reads.{sessions}
use bifrost_platform_plugin.Live.Serve.{shared_redis, shared_env, env_stream_keeps_sessions}
use bifrost_platform_plugin.Live.CacheLaws.{refresh_bounds}
use bifrost_platform_plugin.Examples.Doubles.{still, codec}
use bifrost_platform_plugin.Examples.Slots.{accepting, host_cfg, fresh_conn}
use bifrost_platform_plugin.Examples.Healing.{healthy, one_slot}
use bifrost_platform_plugin.Examples.Rows.{session}

abbrev pub waits : Waits ℕ
waits = record { sleep = λ seconds w. w + 1; within = λ seconds m. m }

abbrev pub settings : OptSettings
settings = record {
  opt_cache_enabled = false;
  opt_cache_refresh_sec = fin (pos 5000000);
  opt_cache_pacing_sec = zero_f;
  opt_cache_max_contracts = 20;
  on_demand_opt_max_age_sec = fin (pos 60000000);
  opt_cache_one_shot_timeout_sec = fin (pos 8000000);
}

abbrev pub read_float : Text → Option Float
read_float s = some (fin (pos 150000000))

-- A command that an environment may not send, and an entry without fields.
abbrev pub attempts : List (Text × Option Fields)
attempts =
    (txt "1-0", some ((txt "req_id", txt "r1") ∷ (txt "op", txt "disconnect_all") ∷ []))
    ∷ (txt "1-1", some ((txt "req_id", txt "r2") ∷ (txt "op", txt "refresh_option_cache") ∷ []))
    ∷ (txt "1-2", none)
    ∷ []

on_env :
    mem_text
      (txt "ib:operator:cmd:dev")
      (txt "ib:operator:cmd:dev" ∷ txt "ib:operator:cmd:stg" ∷ [])
    ≡ true
unfolding mem_text text_eq
on_env = refl

env_stream_keeps_sessions_example :
    sessions {W = ℕ}
      (process_stream
        (shared_redis healthy)
        codec
        (shared_env still)
        (handle_command healthy codec still accepting session waits
          (λ x. txt "t")
          read_float
          settings)
        (txt "ib:operator:cmd:dev", attempts)
        (one_slot, 0)).1
    ≡ sessions {W = ℕ} (one_slot, 0)
env_stream_keeps_sessions_example =
    env_stream_keeps_sessions healthy codec still accepting session waits (λ x. txt "t") read_float
      settings (txt "ib:operator:cmd:dev") attempts one_slot 0 on_env

refresh_bounds_example :
    let r =
      refresh_opt_cache_once healthy codec still session waits read_float settings
        (host_cfg, fresh_conn)
        (one_slot, 0) in
    (r.0 ≤ max 1 20)
    × ((r ≡ (0, (one_slot, 0)))
        ⊎ ((is_connected_state fresh_conn.state ≡ true) × (ib : ℕ) × (fresh_conn.ib ≡ some ib)))
refresh_bounds_example =
    refresh_bounds healthy codec still session waits read_float settings host_cfg fresh_conn
      (one_slot, 0)
