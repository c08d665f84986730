-- ===== src/Ib.antt =====
-- The objects of ib_insync that the gateway reads, and the calls that it makes on a connected
-- session: parameters of the model. An object or attribute that is missing, or None, reads as the
-- default that the code gives it: 0, the empty text, `none` or `null`.
use bifrost_platform_plugin.Prelude.{ℕ, Bool, List, Option, ℤ}
use bifrost_platform_plugin.Text.{Text}
use bifrost_platform_plugin.Float.{Float}
use bifrost_platform_plugin.Effects.{Io}
use bifrost_platform_plugin.Json.{Json}
use bifrost_platform_plugin.Connection.{RawAccounts}

pub record Contract : Type 0 where
  pub con_id : ℤ
  pub symbol : Text
  pub exchange : Text
  pub currency : Text
  pub sec_type : Text
  -- lastTradeDateOrContractMonth
  pub expiry : Text
  pub strike : Float
  pub right : Text
  pub multiplier : Text

pub record Position : Type 0 where
  pub account : Text
  pub contract : Contract
  pub position : Float
  pub avg_cost : Option Float

-- One value of the account summary.
pub record SummaryValue : Type 0 where
  pub tag : Text
  pub value : Option Json

-- An order with its contract and status.
pub record Trade : Type 0 where
  pub order_id : Json
  pub perm_id : Json
  pub account : Json
  pub contract : Contract
  pub action : Json
  pub total_quantity : Float
  pub filled : Float
  pub remaining : Float
  pub lmt_price : Option Float
  pub status : Json

pub record Execution : Type 0 where
  pub exec_id : Text
  pub acct_number : Text
  pub side : Text
  pub shares : Option Float
  pub price : Option Float
  pub exchange : Text
  pub cum_qty : Float
  -- time.timestamp(): `none` where there is no time, `some none` where the call fails
  pub time : Option (Option Float)

pub record CommissionReport : Type 0 where
  pub commission : Option Float
  pub realized_pnl : Option Float

pub record Fill : Type 0 where
  pub execution : Option Execution
  pub contract : Option Contract
  pub commission_report : Option CommissionReport
  pub time : Option (Option Float)

-- The last values that a stream of market data shows. ib_insync keeps floats, nan where there is
-- no value yet, so no conversion of them fails.
pub record TickerView : Type 0 where
  pub bid : Option Float
  pub ask : Option Float
  pub last : Option Float

pub record OptionChain : Type 0 where
  pub expirations : List Text
  pub strikes : List Float

pub record Bar : Type 0 where
  pub date : Text
  pub open_price : Float
  pub high : Float
  pub low : Float
  pub close : Float
  pub volume : Float

-- What a stream of market data or a qualification is asked for: Stock(symbol, "SMART", "USD") or
-- the option with the four parts.
pub data Instrument : Type 0 where
  stock : Text → Instrument
  option : Text → Text → Float → Text → Instrument

-- Calls on a session by its number.
pub record Ib (W : Type 0) : Type 0 where
  pub is_connected : ℕ → W → Bool
  -- ib.managedAccounts(): `none` where it raises
  pub managed : ℕ → W → Option RawAccounts
  -- reqPositionsAsync(), then positions()
  pub positions : ℕ → Io W (List Position)
  pub account_summary : ℕ → Text → Io W (List SummaryValue)
  -- reqOpenOrdersAsync()
  pub open_orders : ℕ → Io W (List Trade)
  -- reqExecutionsAsync with the account and the time of the filter: the commission reports that
  -- came meanwhile, by execution id, and the fills. `none` is no Fill.
  pub executions : ℕ → Text → Text → Io W (List (Text × CommissionReport) × List (Option Fill))
  -- asyncio.sleep(3.0): the commission reports that came meanwhile
  pub late_reports : ℕ → W → List (Text × CommissionReport) × W
  -- qualifyContractsAsync: the conId that it set
  pub qualify : ℕ → Instrument → Io W ℤ
  -- reqSecDefOptParamsAsync within 15 seconds
  pub option_chains : ℕ → Text → ℤ → Io W (List OptionChain)
  -- reqMktData: the number of the ticker; cancelMktData with the same object
  pub open_stream : ℕ → Instrument → Io W ℕ
  pub close_stream : ℕ → Instrument → Io W (Unit {0})
  -- asyncio.sleep(0.5), then the values of the ticker; raises where the task is cancelled meanwhile
  pub view : ℕ → Io W TickerView
  -- reqHistoricalDataAsync with the symbol, the duration and the bar size
  pub bars : ℕ → Text → Text → Text → Io W (List Bar)
