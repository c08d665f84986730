-- ===== src/OnDemand.antt =====
-- src/bifrost_plugin/ib_gateway/on_demand.py and on_demand_opt.py: the symbols and option
-- contracts that clients ask for, with a heartbeat each.
mod Keep
pub mod Fresh
pub mod Desired
pub mod Opt
pub mod Spares
pub use Keep.{Swept}
unfoldable pub use Keep.{clean_symbol, clean_key, heartbeat, is_fresh, sweep, list_fresh}
use bifrost_platform_plugin.Prelude.{
  ℕ, suc, ◌+◌, Bool, true, false, not, ◌&&◌, ◌||◌, List, [], ◌∷◌, ◌++◌, Option, none, some, map,
  max, leb, length, if◌then◌else◌,
}
use bifrost_platform_plugin.Text.{
  Text, txt, Fields, strip, upper, text_eq, mem_text, is_digit, split,
}
use bifrost_platform_plugin.Float.{Float}
use bifrost_platform_plugin.Effects.{Io}
use bifrost_platform_plugin.Redis.{Redis}
use bifrost_platform_plugin.RedisKeys.{
  ib_ingester_on_demand_stk, ib_ingester_on_demand_stk_ts, ib_option_on_demand_set,
  ib_option_on_demand_ts,
}

-- `Floats` reads float(text); `none` is a ValueError.
unfoldable pub list_fresh_on_demand_stk :
    {W : Type 0} → (Text → Option Float) → Redis W → Float → Float → Io W (List Text)
list_fresh_on_demand_stk read_float rds max_age now =
    list_fresh read_float clean_symbol rds ib_ingester_on_demand_stk ib_ingester_on_demand_stk_ts
      max_age now

unfoldable pub list_fresh_on_demand_opt :
    {W : Type 0} → (Text → Option Float) → Redis W → Float → Float → Io W (List Text)
list_fresh_on_demand_opt read_float rds max_age now =
    list_fresh read_float clean_key rds ib_option_on_demand_set ib_option_on_demand_ts max_age now

-- The loop over the watchlist: each symbol once, in order.
unfoldable pub add_watchlist : List Text → List Text → List Text
add_watchlist desired [] = desired
add_watchlist desired (sym ∷ wl) =
    add_watchlist (if mem_text sym desired then desired else desired ++ sym ∷ []) wl

-- [str(s).strip().upper() for s in watchlist if str(s).strip()]
unfoldable pub clean_watchlist : List Text → List Text
clean_watchlist [] = []
clean_watchlist (s ∷ watchlist) =
    let rest = clean_watchlist watchlist in
    if text_eq (strip s) [] then rest else clean_symbol s ∷ rest

-- The loop over the on-demand symbols. `seen` always holds the symbols of `desired`.
unfoldable pub add_on_demand : ℕ → List Text → List Text → List Text × Bool
add_on_demand cap desired [] = (desired, false)
add_on_demand cap desired (sym ∷ on_demand) =
    let s = clean_symbol sym in
    let skip = add_on_demand cap desired on_demand in
    let take_it = add_on_demand cap (desired ++ s ∷ []) on_demand in
    if text_eq s [] || mem_text s desired
    then skip
    else if leb cap (length desired)
    then (desired, true)
    else take_it

unfoldable pub build_desired_stk_symbols : List Text → List Text → ℕ → List Text × Bool
build_desired_stk_symbols watchlist on_demand max_stream_stk =
    add_on_demand (max 1 max_stream_stk) (add_watchlist [] (clean_watchlist watchlist)) on_demand

-- (symbol, expiry, strike, right)
pub record OptContract : Type 0 where
  pub symbol : Text
  pub expiry : Text
  pub strike : Float
  pub right : Text

-- s.isdigit() on ASCII digits
unfoldable pub all_digits : Text → Bool
all_digits [] = true
all_digits (c ∷ s) = is_digit c && all_digits s

unfoldable pub checked_contract : Text → Text → Text → Option Float → Text → Option OptContract
checked_contract sym sec expiry strike right =
    if text_eq sym []
      || not (text_eq sec (txt "OPT"))
      || text_eq expiry []
      || not (mem_text right (txt "C" ∷ txt "P" ∷ []))
    then none
    else if not (all_digits expiry) || not (leb 6 (length expiry))
    then none
    else elim strike [
      | none ↦ none
      | some x ↦ some (record { symbol = sym; expiry = expiry; strike = x; right = right })
    ]

unfoldable pub contract_of_parts : (Text → Option Float) → List Text → Option OptContract
contract_of_parts read_float (sym ∷ sec ∷ expiry ∷ strike_raw ∷ right ∷ []) =
    checked_contract (upper (strip sym)) (upper (strip sec)) (strip expiry)
      (read_float (strip strike_raw)) (upper (strip right))
contract_of_parts read_float _ = none

unfoldable pub parse_opt_contract_key : (Text → Option Float) → Text → Option OptContract
parse_opt_contract_key read_float contract_key =
    if text_eq (strip contract_key) []
    then none
    else contract_of_parts read_float (split b'|' (strip contract_key))
