-- ===== src/Examples/Turns.antt =====
-- The tasks of a gateway with one slot, from its start.
use bifrost_platform_plugin.Prelude.{ℕ, ◌≡◌, refl, [], some, pos}
use bifrost_platform_plugin.Text.{txt, text_eq}
use bifrost_platform_plugin.Float.{fin}
use bifrost_platform_plugin.Connection.{new_slot, reconnect_step}
use bifrost_platform_plugin.Live.State.{find_slot}
use bifrost_platform_plugin.Live.Slots.{AllSound}
use bifrost_platform_plugin.Live.Market.{Market, set_slots, replace_slot, market_round}
use bifrost_platform_plugin.Live.Commands.{handle_command}
use bifrost_platform_plugin.Live.Serve.{shared_redis, shared_env}
use bifrost_platform_plugin.Live.Health.{health_round}
use bifrost_platform_plugin.Operator.{process_stream}
use bifrost_platform_plugin.Live.Turns.{
  here, next, served, marketed, checked, dialled, with_live, new_live, gateway-AllSound,
}
use bifrost_platform_plugin.Examples.Doubles.{still}
use bifrost_platform_plugin.Examples.Startup.{reader, host_file, loaded_cfg, loaded, file_loads}
use bifrost_platform_plugin.Examples.Slots.{accepting}
use bifrost_platform_plugin.Examples.Healing.{healthy, writer, settings}
use bifrost_platform_plugin.Examples.Rows.{session}
use bifrost_platform_plugin.Examples.Rounds.{feed, tickers, stream_settings}
use bifrost_platform_plugin.Examples.Gateway

abbrev started : Market
started = new_live (fin (pos 1000000)) loaded.slots writer

-- The states after each turn.
abbrev after_dial : Market × ℕ
after_dial =
    let s =
      (reconnect_step accepting loaded_cfg 1000 60000 1000
        (record { conn = new_slot; world = 0 })).1 in
    (set_slots (replace_slot (txt "host") s.conn started.live.slots) started, s.world)

abbrev after_market : Market × ℕ
after_market =
    market_round healthy reader still accepting session (λ seconds m. m) feed tickers (λ x. txt "t")
      Gateway.read_float stream_settings after_dial

abbrev after_commands : Market × ℕ
after_commands =
    with_live after_market.0
      (process_stream (shared_redis healthy) reader (shared_env still)
        (handle_command healthy reader still accepting session Gateway.waits (λ x. txt "t")
          Gateway.read_float Gateway.settings)
        (txt "ib:operator:cmd", Gateway.attempts) (after_market.0.live, after_market.1)).1

abbrev after_check : Market × ℕ
after_check =
    with_live after_commands.0
      (health_round healthy reader still accepting after_commands.0.writer settings 3
        (after_commands.0.live, after_commands.1)).1

host_found : find_slot (txt "host") started.live.slots ≡ some (loaded_cfg, new_slot)
unfolding find_slot text_eq new_live
host_found = refl

gateway-AllSound_example : AllSound after_check.0.live.slots
gateway-AllSound_example =
    gateway-AllSound healthy reader still accepting session Gateway.waits (λ seconds m. m) feed
      tickers (λ x. txt "t") Gateway.read_float Gateway.settings stream_settings settings []
      host_file loaded (fin (pos 1000000)) writer 0 after_check file_loads
      (next
        (next
          (next (next here (dialled started 0 loaded_cfg new_slot 1000 60000 1000 host_found))
            (marketed after_dial.0 after_dial.1))
          (served after_market.0 after_market.1 (txt "ib:operator:cmd") Gateway.attempts))
        (checked after_commands.0 after_commands.1 3))
