-- ===== src/Examples/Symbols.antt =====
-- Registrations of AAPL and MSFT, and the key of a call option.
use bifrost_platform_plugin.Prelude.{
  ◌-◌, ◌≡◌, refl, List, [], ◌∷◌, ◌++◌, ◌&&◌, Option, some, pos, arith, max, length, ltb, take,
}
use bifrost_platform_plugin.Text.{
  Text, txt, Fields, strip, lstrip, is_space, upper, upper_char, text_eq, mem_text, is_digit,
}
use bifrost_platform_plugin.Text.Sort.{IsSorted}
use bifrost_platform_plugin.Text.Laws.{IsDistinct}
use bifrost_platform_plugin.Float.{Float, fin}
use bifrost_platform_plugin.Effects.{returned, raised, ◌>>◌}
use bifrost_platform_plugin.Redis.{Redis}
use bifrost_platform_plugin.RedisKeys.{ib_ingester_on_demand_stk, ib_ingester_on_demand_stk_ts}
use bifrost_platform_plugin.OnDemand.{
  OptContract, all_digits, clean_symbol, heartbeat, is_fresh, build_desired_stk_symbols,
  parse_opt_contract_key,
}
use bifrost_platform_plugin.OnDemand.Fresh.{
  names, listed, list_fresh_exact, heartbeat_outage_prunes,
}
use bifrost_platform_plugin.OnDemand.Desired.{new_symbols, watched, build_desired_lem}
use bifrost_platform_plugin.OnDemand.Opt.{opt_key, IsNormal, parse-opt_key}
use bifrost_platform_plugin.Operator.Log.{Event}
use bifrost_platform_plugin.Examples.Doubles.{refused, outage}

-- Every number reads as 0.9 s.
abbrev read_float : Text → Option Float
read_float s = some (fin (pos 900000))

abbrev members : List Text
members = txt " aapl" ∷ txt "MSFT" ∷ []

abbrev beats : Fields
beats = (txt "AAPL", txt "0.9") ∷ []

abbrev max_age : Float
max_age = fin (pos 300000)

abbrev now : Float
now = fin (pos 1000000)

abbrev both : Redis (List Event)
both = outage (returned members) (returned beats) (returned [])

abbrev no_beats : Redis (List Event)
no_beats = outage (returned members) (raised refused) (returned [])

list_fresh_exact_example :
    (l : List Text) × ((listed read_float clean_symbol both ib_ingester_on_demand_stk
        ib_ingester_on_demand_stk_ts max_age now []).0
      ≡ returned l)
    × IsSorted l
    × ((n : Text)
        → mem_text n l ≡ (
            mem_text n (names clean_symbol members)
            && is_fresh now max_age (heartbeat read_float beats n)))
list_fresh_exact_example =
    list_fresh_exact read_float clean_symbol both ib_ingester_on_demand_stk
      ib_ingester_on_demand_stk_ts max_age now [] members beats [] [] refl refl

member_names : names clean_symbol members ≡ txt "AAPL" ∷ txt "MSFT" ∷ []
unfolding clean_symbol strip lstrip is_space upper upper_char text_eq
member_names = refl

heartbeat_outage_prunes_example :
    listed read_float clean_symbol no_beats ib_ingester_on_demand_stk ib_ingester_on_demand_stk_ts
      max_age now []
    ≡ (
      returned [],
      ((no_beats.srem ib_ingester_on_demand_stk (txt "AAPL" ∷ txt "MSFT" ∷ [])
            >> no_beats.hdel ib_ingester_on_demand_stk_ts (txt "AAPL" ∷ txt "MSFT" ∷ []))
          []).1,
    )
heartbeat_outage_prunes_example =
    heartbeat_outage_prunes read_float clean_symbol no_beats ib_ingester_on_demand_stk
      ib_ingester_on_demand_stk_ts max_age now [] members (txt "AAPL") (txt "MSFT" ∷ []) refused []
      [] member_names refl refl

abbrev watchlist : List Text
watchlist = txt "spy" ∷ txt "SPY" ∷ txt "qqq" ∷ []

build_desired_lem_example :
    let own = watched watchlist in
    let room = max 1 3 - length own in
    (build_desired_stk_symbols watchlist members 3).0 ≡ own ++ take room (new_symbols own members)
    × ((build_desired_stk_symbols watchlist members 3).1
        ≡ ltb room (length (new_symbols own members)))
    × IsDistinct (build_desired_stk_symbols watchlist members 3).0
build_desired_lem_example = build_desired_lem watchlist members 3

call-IsNormal :
    IsNormal read_float b'A' (txt "APL") (txt "20250117") (txt "150") (fin (pos 900000)) b'C'
unfolding strip lstrip is_space upper upper_char text_eq mem_text is_digit all_digits
call-IsNormal = record {
  starts = refl;
  symbol_clean = refl;
  expiry_clean = refl;
  expiry_digits = refl;
  expiry_long = omega arith;
  strike_read = refl;
  symbol_free = (refl, (refl, (refl, (refl, tt))));
  expiry_free = (refl, (refl, (refl, (refl, (refl, (refl, (refl, (refl, tt))))))));
  strike_free = (refl, (refl, (refl, tt)));
  right_known = refl;
}

abbrev call : OptContract
call = record {
  symbol = txt "AAPL";
  expiry = txt "20250117";
  strike = fin (pos 900000);
  right = txt "C";
}

abbrev call_key : Text
call_key = opt_key (txt "AAPL") (txt "20250117") (txt "150") (txt "C")

parse-opt_key_example : parse_opt_contract_key read_float call_key ≡ some call
parse-opt_key_example =
    parse-opt_key read_float b'A' (txt "APL") (txt "20250117") (txt "150") (fin (pos 900000)) b'C'
      call-IsNormal
