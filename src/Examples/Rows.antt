-- ===== src/Examples/Rows.antt =====
-- Rows read from a session of TWS that knows one account, one order and one fill.
use bifrost_platform_plugin.Prelude.{
  ℕ, ◌≡◌, refl, [], ◌∷◌, ◌++◌, ◌⊎◌, true, List, Option, none, some, pos, arith,
}
use bifrost_platform_plugin.Text.{
  Text, txt, strip, lstrip, is_space, upper, upper_char, text_eq, mem_text, is_digit,
}
use bifrost_platform_plugin.Text.Laws.{IsDistinct}
use bifrost_platform_plugin.Float.{Float, fin}
use bifrost_platform_plugin.Effects.{Exn, cancelled, other, returned, raised}
use bifrost_platform_plugin.Json.{number, truthy, Dict, Python}
use bifrost_platform_plugin.OnDemand.{all_digits, parse_opt_contract_key}
use bifrost_platform_plugin.OnDemand.Opt.{IsNormal}
use bifrost_platform_plugin.Connection.{list_accounts}
use bifrost_platform_plugin.Ib.{Fill, TickerView, Ib}
use bifrost_platform_plugin.IbOps.Accounts.{
  WasCancelled, AreAccounts, managed_account_ids, fetch_accounts_snapshot_rows, fetch_accounts_lem,
}
use bifrost_platform_plugin.IbOps.OpenOrders.{order_contract_key, option_order_key_parses}
use bifrost_platform_plugin.IbOps.Executions.{
  fetch_executions, row_ids, fill_ids, fetch_executions_ids,
}
use bifrost_platform_plugin.IbOps.Quotes.{option_instrument, fetch_option_quote_one_shot}
use bifrost_platform_plugin.IbOps.Streams.{
  StreamEvent, opened, closed, Watches, IsBalanced, one_shot-IsBalanced,
}
use bifrost_platform_plugin.IbOps.Snapshot.{fetch_option_snapshot}
use bifrost_platform_plugin.IbOps.Selection.{
  RunsOn, requested, both_sides, sides_of, fetch_option_snapshot_rows,
}
use bifrost_platform_plugin.Examples.Doubles.{still, codec}
use bifrost_platform_plugin.Examples.Fills.{call, execution}

abbrev fill : Fill
fill = record {
  execution = some execution;
  contract = some call;
  commission_report = none;
  time = none;
}

abbrev pub view : TickerView
view = record { bid = some (fin (pos 1000000)); ask = some (fin (pos 1200000)); last = none }

abbrev no_summary : Exn
no_summary = record { kind = other; message = txt "no summary" }

-- A session whose account summary fails, and that shows each fill twice.
abbrev any_session : {W : Type 0} → Ib W
any_session = record {
  is_connected = λ ib w. true;
  managed = λ ib w. some (list_accounts (txt "U123" ∷ []));
  positions = λ ib w. (returned [], w);
  account_summary = λ ib account w. (raised no_summary, w);
  open_orders = λ ib w. (returned [], w);
  executions = λ ib account time w. (returned ([], some fill ∷ some fill ∷ none ∷ []), w);
  late_reports = λ ib w. ([], w);
  qualify = λ ib c w. (returned (pos 1), w);
  option_chains = λ ib symbol con_id w. (returned [], w);
  open_stream = λ ib c w. (returned 7, w);
  close_stream = λ ib c w. (returned tt, w);
  view = λ ticker w. (returned view, w);
  bars = λ ib symbol duration size w. (returned [], w);
}

abbrev pub session : Ib ℕ
session = any_session

fetch_accounts_lem_example :
    ((e : Exn) × ((fetch_accounts_snapshot_rows session 4 0).0 ≡ raised e)
      × WasCancelled session 4 e)
    ⊎ ((rows : List Dict) × ((fetch_accounts_snapshot_rows session 4 0).0 ≡ returned rows)
        × AreAccounts session 4 (managed_account_ids session 4 0) 0 rows)
fetch_accounts_lem_example = fetch_accounts_lem session 4 0 refl

-- Numbers print as 150.
abbrev printer : Python
printer = record codec { str_of = λ v. txt "150" }

abbrev read_float : Text → Option Float
read_float s = some (fin (pos 150000000))

call-IsNormal :
    IsNormal read_float b'A'
      (txt "APL")
      (txt "20250117")
      (printer.str_of (number (fin (pos 150000000))))
      (fin (pos 150000000))
      b'C'
unfolding strip lstrip is_space upper upper_char text_eq mem_text is_digit all_digits
call-IsNormal = record {
  starts = refl;
  symbol_clean = refl;
  expiry_clean = refl;
  expiry_digits = refl;
  expiry_long = omega arith;
  strike_read = refl;
  symbol_free = (refl, (refl, (refl, (refl, tt))));
  expiry_free = (refl, (refl, (refl, (refl, (refl, (refl, (refl, (refl, tt))))))));
  strike_free = (refl, (refl, (refl, tt)));
  right_known = refl;
}

strike_given : truthy (number (fin (pos 150000000))) ≡ true
unfolding truthy
strike_given = refl

option_order_key_parses_example :
    (key : Text) × (order_contract_key printer (record call {
      symbol = txt "AAPL";
      sec_type = txt "OPT";
      expiry = txt "20250117";
      strike = fin (pos 150000000);
      right = txt "C";
    })
      ≡ returned key)
    × (parse_opt_contract_key read_float key
        ≡ some (record {
          symbol = txt "AAPL";
          expiry = txt "20250117";
          strike = fin (pos 150000000);
          right = txt "C";
        }))
option_order_key_parses_example =
    option_order_key_parses session printer read_float call b'A' (txt "APL") (txt "20250117")
      (fin (pos 150000000)) b'C' call-IsNormal strike_given

fetch_executions_ids_example :
    (rows : List Dict) × ((fetch_executions session still
        (λ x. txt "20250101")
        read_float
        4
        (pos 7)
        []
        true
        0).0
      ≡ returned rows)
    × IsDistinct (row_ids rows)
    × (mem_text (txt "e1") (row_ids rows)
        ≡ mem_text (txt "e1") (fill_ids (some fill ∷ some fill ∷ none ∷ [])))
fetch_executions_ids_example =
    fetch_executions_ids session still (λ x. txt "20250101") read_float 4 (pos 7) [] true 0 0 []
      (some fill ∷ some fill ∷ none ∷ []) (txt "e1") refl

-- A deadline cancels the task while it watches the ticker; the world is the log of the streams.
abbrev late : Exn
late = record { kind = cancelled; message = [] }

abbrev logging : Ib (List StreamEvent)
logging = record any_session {
  open_stream = λ ib c w. (returned 7, w ++ opened c ∷ []);
  close_stream = λ ib c w. (returned tt, w ++ closed c ∷ []);
  view = λ ticker w. (raised late, w);
}

logging-Watches : Watches logging (λ w. w)
logging-Watches = record {
  opens = λ ib c w. refl;
  closes = λ ib c w. refl;
  views = λ ticker w. refl;
  qualifies = λ ib c w. refl;
}

one_shot-IsBalanced_example :
    IsBalanced logging
      (λ w. w)
      logging-Watches
      (option_instrument (txt "AAPL") (txt "20250117") (fin (pos 150000000)) (txt "C"))
      []
      (fetch_option_quote_one_shot logging 4
        (txt "AAPL")
        (txt "20250117")
        (fin (pos 150000000))
        (txt "C")
        []).1
one_shot-IsBalanced_example =
    one_shot-IsBalanced logging (λ w. w) logging-Watches 4 (txt "AAPL") (txt "20250117")
      (fin (pos 150000000)) (txt "C") []

session-RunsOn : RunsOn session
session-RunsOn = record {
  qualifies = λ ib c w e h. cc;
  opens = λ ib c w e h. cc;
  closes = λ ib c w e h. cc;
  views = λ ticker w e h. cc;
}

abbrev strikes : List Float
strikes = fin (pos 150000000) ∷ fin (pos 3000000) ∷ fin (pos 100000000) ∷ []

fetch_option_snapshot_rows_example :
    (rows : List Dict) × (price : Option Float) × ((fetch_option_snapshot session
        (λ seconds w. w)
        4
        (txt "AAPL")
        (txt "20250117")
        strikes
        (pos 20)
        (fin (pos 0))
        0).0
      ≡ returned (rows, price))
    × (sides_of rows ≡ both_sides (requested (pos 20) strikes))
fetch_option_snapshot_rows_example =
    fetch_option_snapshot_rows session (λ seconds w. w) session-RunsOn 4 (txt "AAPL")
      (txt "20250117") strikes (pos 20) (fin (pos 0)) 0
