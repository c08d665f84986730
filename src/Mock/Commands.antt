-- ===== src/Mock/Commands.antt =====
-- handle_command of the mock.
use bifrost_platform_plugin.Prelude.{
  ℕ, ◌+◌, true, List, [], ◌∷◌, ◌++◌, Option, if◌then◌else◌, not, pos, map,
}
use bifrost_platform_plugin.Text.{Text, txt, upper, text_eq}
use bifrost_platform_plugin.Float.{Float, fin}
use bifrost_platform_plugin.Effects.{pure, gets, modify, ◌>>=◌, ◌>>◌, Env}
use bifrost_platform_plugin.Json.{
  boolean, integer, number, string, array, object, Dict, entries_of, items_of, dicts, Python,
}
use bifrost_platform_plugin.Redis.{Redis}
use bifrost_platform_plugin.Protocol.{CommandMessage}
use bifrost_platform_plugin.Protocol.Reply.{ok_reply, error_reply, one}
use bifrost_platform_plugin.Connection.{TwsSlotConfig}
use bifrost_platform_plugin.Live.OptCache.{Waits}
use bifrost_platform_plugin.Live.Commands.{text_field}
use bifrost_platform_plugin.Mock.State.{
  MockGateway, MockSettings, Random, MockIo, price_or, mock_accounts,
}
use bifrost_platform_plugin.Mock.OptCache.{refresh_opt_cache_once}

unfoldable pub mock_ping : List TwsSlotConfig → ℕ → Dict
mock_ping slots cmd_count =
    (txt "mode", string (txt "mock"))
    ∷ (txt "cmd_count", integer (pos cmd_count))
    ∷ (txt "slots", array (items_of (map (λ s. string s.slot) slots)))
    ∷ []

-- {"mode": "mock", key: True}
unfoldable pub mock_done : Text → Dict
mock_done key = (txt "mode", string (txt "mock")) ∷ (key, boolean true) ∷ []

unfoldable pub mock_execution : Float → Dict
mock_execution ts =
    (txt "exec_id", string (txt "mock-1"))
    ∷ (txt "symbol", string (txt "SPY"))
    ∷ (txt "sec_type", string (txt "STK"))
    ∷ (txt "side", string (txt "BOT"))
    ∷ (txt "shares", number (fin (pos 100000000)))
    ∷ (txt "price", number (fin (pos 560000000)))
    ∷ (txt "ts", number ts)
    ∷ []

-- str(payload.get("symbol") or default).upper()
unfoldable pub mock_symbol : Python → Text → Dict → Text
mock_symbol py default payload = upper (text_field py (txt "symbol") default payload)

unfoldable pub mock_bar : Text → Float → Float → Dict
mock_bar sym close ts =
    (txt "symbol", string sym) ∷ (txt "close", number close) ∷ (txt "ts", number ts) ∷ []

unfoldable pub mock_expirations : Text → Dict
mock_expirations sym =
    (txt "expirations", array (items_of (string (txt "20260718") ∷ string (txt "20260815") ∷ [])))
    ∷ (
      txt "strikes",
      array (
          items_of (
            number (fin (pos 120000000))
            ∷ number (fin (pos 130000000))
            ∷ number (fin (pos 140000000))
            ∷ [])),
    )
    ∷ (txt "symbol", string sym)
    ∷ []

-- A row of the snapshot at the strike 130.0, whose mid is its last price.
unfoldable pub mock_row : Text → Text → Text → ℕ → ℕ → ℕ → Dict
mock_row sym exp right bid ask last =
    (txt "strike", number (fin (pos 130000000)))
    ∷ (txt "right", string right)
    ∷ (txt "bid", number (fin (pos bid)))
    ∷ (txt "ask", number (fin (pos ask)))
    ∷ (txt "last", number (fin (pos last)))
    ∷ (txt "mid", number (fin (pos last)))
    ∷ (txt "symbol", string sym)
    ∷ (txt "expiration", string exp)
    ∷ []

unfoldable pub mock_rows : Text → Text → List Dict
mock_rows sym exp =
    mock_row sym exp (txt "C") 5100000 5300000 5200000
    ∷ mock_row sym exp (txt "P") 4800000 5000000 4900000
    ∷ []

unfoldable pub mock_option_snapshot : Text → Text → List (Text × Float) → Dict
mock_option_snapshot sym exp prices =
    (txt "underlying_price", number (price_or (fin (pos 130000000)) sym prices))
    ∷ (txt "rows", dicts (mock_rows sym exp))
    ∷ []

unfoldable pub count_mock : {W : Type 0} → MockGateway × W → MockGateway × W
count_mock (mock, w) = (record mock { cmd_count = mock.cmd_count + 1 }, w)

module _ {W : Type 0} (rds : Redis W) (py : Python) (env : Env W) (random : Random W)
    (waits : Waits W) (read_float : Text → Option Float) (settings : MockSettings) where
  -- {"ok": True, "data": ...} of the gateway and the time
  unfoldable pub mock_reply : (MockGateway → Float → Dict) → MockIo W Dict
  mock_reply data_of = gets (λ g. ok_reply (object (entries_of (data_of g.0 (env.now g.1)))))

  unfoldable pub mock_refresh : MockIo W Dict
  mock_refresh =
      if not settings.opt.opt_cache_enabled
      then pure (error_reply (txt "opt_cache_disabled"))
      else (refresh_opt_cache_once rds py env random waits read_float settings >>= λ refreshed.
          pure (ok_reply (one (txt "refreshed") (integer (pos refreshed)))))

  unfoldable pub mock_dispatch : Text → Dict → MockIo W Dict
  mock_dispatch op payload =
      if text_eq op (txt "ping")
      then mock_reply (λ mock now. mock_ping settings.slots mock.cmd_count)
      else if text_eq op (txt "disconnect_all")
      then mock_reply (λ mock now. mock_done (txt "disconnected"))
      else if text_eq op (txt "reconnect_all")
      then mock_reply (λ mock now. mock_done (txt "reconnected"))
      else if text_eq op (txt "fetch_accounts_snapshot")
      then mock_reply (λ mock now. (txt "accounts", dicts (mock_accounts settings.slots)) ∷ [])
      else if text_eq op (txt "fetch_executions")
      then mock_reply (λ mock now. (txt "executions", dicts (mock_execution now ∷ [])) ∷ [])
      else if text_eq op (txt "fetch_bars")
      then mock_reply (λ mock now.
        let sym = mock_symbol py (txt "SPY") payload in
        (txt "bars", dicts (mock_bar sym (price_or (fin (pos 100000000)) sym mock.prices) now ∷ []))
        ∷ [])
      else if text_eq op (txt "fetch_option_expirations")
      then mock_reply (λ mock now. mock_expirations (mock_symbol py (txt "NVDA") payload))
      else if text_eq op (txt "fetch_option_snapshot")
      then mock_reply (λ mock now.
        mock_option_snapshot (mock_symbol py (txt "NVDA") payload)
          (text_field py (txt "expiration") (txt "20260718") payload) mock.prices)
      else if text_eq op (txt "refresh_option_cache")
      then mock_refresh
      else pure (error_reply (txt "mock_unsupported_op:" ++ op))

  unfoldable pub handle_command : CommandMessage → MockIo W Dict
  handle_command msg = modify count_mock >> mock_dispatch msg.op msg.payload
