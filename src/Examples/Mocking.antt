-- ===== src/Examples/Mocking.antt =====
-- The mock, the choice of the engine, the log filter, and a Redis that refuses its writes.
use bifrost_platform_plugin.Prelude.{
  ℕ, ◌+◌, ◌≡◌, ◌&&◌, refl, true, false, [], ◌∷◌, none, some, arith,
}
use bifrost_platform_plugin.Text.{
  txt, contains, starts_with, lower, lower_char, strip, upper, text_eq, mem_text,
}
use bifrost_platform_plugin.Float.{zero_f}
use bifrost_platform_plugin.Effects.{raised}
use bifrost_platform_plugin.Effects.Returns.{Holds}
use bifrost_platform_plugin.Redis.{Redis}
use bifrost_platform_plugin.Protocol.{CommandMessage}
use bifrost_platform_plugin.Protocol.Reply.{IsEnvelope}
use bifrost_platform_plugin.Operator.{envelope_of}
use bifrost_platform_plugin.Writer.{is_wrong_type}
use bifrost_platform_plugin.Live.Health.{health_loop}
use bifrost_platform_plugin.Live.HealthOutage.{health_outage_ends_loop}
use bifrost_platform_plugin.Mock.State.{MockSettings, Random, new_mock}
use bifrost_platform_plugin.Mock.Ticks.{mock_symbols, step_price, tick_round}
use bifrost_platform_plugin.Mock.Quotes.{IsPrice, KeepsOrder, InOrder}
use bifrost_platform_plugin.Mock.Prices.{IsUniform}
use bifrost_platform_plugin.Mock.Symbols.{symbols_of, IsClean, mock_symbols_stay}
use bifrost_platform_plugin.OnDemand.{clean_symbol}
use bifrost_platform_plugin.Mock.Turns.{here, next, ticked, mock_quotes-InOrder}
use bifrost_platform_plugin.App.{start_engine, engine_command}
use bifrost_platform_plugin.App.Answers.{engine_answers}
use bifrost_platform_plugin.LogFilters.{
  LogRecord, other_filter, keeps_line, install_log_filters, passes, started_times,
}
use bifrost_platform_plugin.LogFilters.Laws.{started_times-passes}
use bifrost_platform_plugin.Examples.Doubles.{still, codec, refused}
use bifrost_platform_plugin.Examples.Slots.{accepting, host_cfg, fresh_conn}
use bifrost_platform_plugin.Examples.Healing.{healthy, writer, settings, one_slot}
use bifrost_platform_plugin.Examples.Rows.{session}
use bifrost_platform_plugin.Examples.Rounds.{stream_settings}
use bifrost_platform_plugin.Examples.Startup.{loaded}
use bifrost_platform_plugin.Examples.Commands.{codec-Encodes}
use bifrost_platform_plugin.Examples.Gateway

-- It always draws the lower bound.
abbrev lowest : Random ℕ
lowest = record { uniform = λ low high w. (low, w + 1) }

lowest-IsUniform : IsUniform lowest
lowest-IsUniform = record { between = λ low high w h. (low, refl, omega arith, h) }

codec-KeepsOrder : KeepsOrder codec
codec-KeepsOrder = record { in_order = λ digits x y h. h }

abbrev mock_settings : MockSettings
mock_settings = record { slots = host_cfg ∷ []; streams = stream_settings; opt = Gateway.settings }

abbrev bars : CommandMessage
bars = record {
  req_id = txt "r1";
  version = txt "1";
  op = txt "fetch_bars";
  payload = [];
  caller = [];
  deadline_ms = none;
  stream_id = txt "1-0";
}

mock_quotes-InOrder_example :
    Holds
      (λ base. IsPrice base × InOrder codec base)
      (step_price healthy codec still lowest Gateway.read_float mock_settings
        (txt "SPY")
        (tick_round healthy codec still lowest Gateway.read_float mock_settings
          (new_mock writer, 0)).1).0
mock_quotes-InOrder_example =
    mock_quotes-InOrder healthy codec still lowest Gateway.waits Gateway.read_float mock_settings
      writer 0 _ (txt "SPY") codec-KeepsOrder lowest-IsUniform
      (next here (ticked (new_mock writer, 0)))

engine_answers_example : IsEnvelope (txt "r1") (
    envelope_of
      (txt "r1")
      (engine_command healthy codec still accepting session lowest Gateway.waits
        (λ x. txt "t")
        Gateway.read_float
        loaded
        bars
        (start_engine zero_f loaded writer, 0)).0)
engine_answers_example =
    engine_answers healthy codec still accepting session lowest Gateway.waits (λ x. txt "t")
      Gateway.read_float loaded bars (start_engine zero_f loaded writer) 0

abbrev echo : LogRecord
echo = record { levelno = 20; msg = some (txt "position: SPY") }

started_times-passes_example :
    (started_times 3 (other_filter 0 ∷ []) ≡ install_log_filters (other_filter 0 ∷ []))
    × (passes (λ n r. true) (started_times 3 (other_filter 0 ∷ [])) echo
        ≡ (passes (λ n r. true) (other_filter 0 ∷ []) echo && keeps_line echo))
started_times-passes_example = started_times-passes (λ n r. true) echo 2 (other_filter 0 ∷ [])

abbrev read_only : Redis ℕ
read_only = record healthy {
  set = λ key value ttl w. (raised refused, w);
  hset = λ key fields w. (raised refused, w);
}

refused_unlike : is_wrong_type refused ≡ false
unfolding is_wrong_type contains starts_with lower lower_char
refused_unlike = refl

health_outage_ends_loop_example :
    (health_loop read_only codec still accepting writer settings 5 0 (one_slot, 0)).0
    ≡ raised refused
health_outage_ends_loop_example =
    health_outage_ends_loop read_only codec still accepting writer settings refused codec-Encodes
      (λ key value ttl w. refl) (λ key fields w. refl) refused_unlike 4 0 one_slot 0
      (host_cfg, fresh_conn) [] refl refl refl

abbrev unwatched : MockSettings
unwatched = record mock_settings { streams = record stream_settings { watchlist_symbols = [] } }

spy-IsClean : IsClean (txt "SPY")
spy-IsClean = record { fixed = spy_clean; given = spy_given }
  where
    spy_clean : clean_symbol (txt "SPY") ≡ txt "SPY"
    spy_clean = unfold clean_symbol in unfold upper in unfold strip in refl

    spy_given : text_eq (strip (txt "SPY")) [] ≡ false
    spy_given = unfold text_eq in unfold strip in refl

spy_priced : mem_text (txt "SPY") (symbols_of (new_mock writer).prices) ≡ true
unfolding new_mock mem_text text_eq
spy_priced = refl

mock_symbols_stay_example :
    mem_text (txt "SPY") (
      mock_symbols healthy codec still lowest Gateway.read_float unwatched
        (tick_round healthy codec still lowest Gateway.read_float unwatched
          (new_mock writer, 0)).1.0
        [])
    ≡ true
mock_symbols_stay_example =
    mock_symbols_stay healthy codec still lowest Gateway.waits Gateway.read_float unwatched
      (txt "SPY") (new_mock writer, 0) _ [] refl spy-IsClean spy_priced
      (next here (ticked (new_mock writer, 0)))
