-- ===== src/Examples/Fills.antt =====
-- The fill of a stock and of a call option.
use bifrost_platform_plugin.Prelude.{[], Option, none, some, pos}
use bifrost_platform_plugin.Text.{Text, txt}
use bifrost_platform_plugin.Float.{Float, fin}
use bifrost_platform_plugin.Ib.{Contract, Execution}

abbrev read_float : Text → Option Float
read_float s = some (fin (pos 100000000))

abbrev stock : Contract
stock = record {
  con_id = pos 265598;
  symbol = txt "AAPL";
  exchange = txt "SMART";
  currency = txt "USD";
  sec_type = txt "STK";
  expiry = [];
  strike = fin (pos 0);
  right = [];
  multiplier = [];
}

abbrev pub call : Contract
call = record stock {
  sec_type = txt "OPT";
  expiry = txt "20250117";
  strike = fin (pos 150000000);
  right = txt "CALL";
  multiplier = txt "100";
}

abbrev pub execution : Execution
execution = record {
  exec_id = txt "e1";
  acct_number = txt "U123";
  side = txt "BOT";
  shares = some (fin (pos 1000000));
  price = some (fin (pos 2000000));
  exchange = txt "SMART";
  cum_qty = fin (pos 1000000);
  time = none;
}
