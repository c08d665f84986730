-- ===== src/Mock/State.antt =====
-- The state of MockGateway, its prices and its account rows.
use bifrost_platform_plugin.Prelude.{ℕ, true, List, [], ◌∷◌, pos, map}
use bifrost_platform_plugin.Text.{Text, txt, text_eq}
use bifrost_platform_plugin.Float.{Float, fin}
use bifrost_platform_plugin.Effects.{Outcome, returned, raised, Io, Env}
use bifrost_platform_plugin.Json.{boolean, string, Dict}
use bifrost_platform_plugin.Writer.{Writer}
use bifrost_platform_plugin.Connection.{TwsSlotConfig}
use bifrost_platform_plugin.Live.MarketData.{StreamSettings}
use bifrost_platform_plugin.Live.OptCache.{OptSettings}
use bifrost_platform_plugin.Prelude.{if◌then◌else◌}

-- The prices by symbol, in the order of the dict; the count of commands; the writer.
pub record MockGateway : Type 0 where
  pub prices : List (Text × Float)
  pub cmd_count : ℕ
  pub writer : Writer

-- What it reads of GatewaySettings.
pub record MockSettings : Type 0 where
  pub slots : List TwsSlotConfig
  pub streams : StreamSettings
  pub opt : OptSettings

-- random.uniform(low, high): a number, and the generator's next state in the world.
pub record Random (W : Type 0) : Type 0 where
  pub uniform : Float → Float → W → Float × W

-- The gateway in its world.
abbrev pub MockIo : Type 0 → Type 0 → Type 0
MockIo W A = Io (MockGateway × W) A

-- An action on Redis leaves the gateway's own state alone.
unfoldable pub outside : {W A : Type 0} → Io W A → MockIo W A
outside m (mock, w) = ((m w).0, (mock, (m w).1))

-- MockGateway(settings, writer)
unfoldable pub new_mock : Writer → MockGateway
new_mock wr = record {
  prices =
      (txt "NVDA", fin (pos 130000000))
      ∷ (txt "AAPL", fin (pos 220000000))
      ∷ (txt "SPY", fin (pos 560000000))
      ∷ (txt "QQQ", fin (pos 480000000))
      ∷ (txt "TSLA", fin (pos 250000000))
      ∷ [];
  cmd_count = 0;
  writer = wr;
}

-- self._prices.get(sym, default)
unfoldable pub price_or : Float → Text → List (Text × Float) → Float
price_or default sym [] = default
price_or default sym ((s, x) ∷ prices) =
    let rest = price_or default sym prices in if text_eq sym s then x else rest

-- self._prices[sym] = base: a symbol that is there keeps its place
unfoldable pub put_price : Text → Float → List (Text × Float) → List (Text × Float)
put_price sym base [] = (sym, base) ∷ []
put_price sym base ((s, x) ∷ prices) =
    let rest = put_price sym base prices in
    if text_eq sym s then (s, base) ∷ prices else (s, x) ∷ rest

abbrev account_row : Text → Text → Dict
account_row account_id slot =
    (txt "account_id", string account_id)
    ∷ (txt "slot", string slot)
    ∷ (txt "connected", boolean true)
    ∷ []

unfoldable pub mock_accounts : List TwsSlotConfig → List Dict
mock_accounts [] = account_row (txt "mock") (txt "host") ∷ []
mock_accounts (s ∷ slots) = map (λ c. account_row c.account_id c.slot) (s ∷ slots)

-- `await asyncio.sleep(seconds)` after a round that did not raise.
unfoldable pub rest_after : {W : Type 0} → Env W → ℕ → Outcome (Unit {0}) → MockIo W (Unit {0})
rest_after env seconds (returned done) (mock, w) = (returned tt, (mock, env.sleep seconds w))
rest_after env seconds (raised e) g = (raised e, g)
