-- ===== src/IbOps/Snapshot.antt =====
-- fetch_option_snapshot and fetch_option_expirations.
use bifrost_platform_plugin.Prelude.{
  ℕ, ◌/◌, min, Bool, ◌&&◌, sym, List, [], ◌∷◌, ◌++◌, Option, none, some, if◌then◌else◌, length,
  take, map, ℤ, pos, negsuc,
}
use bifrost_platform_plugin.Text.{Text, txt, strip, upper, text_eq, leb_text}
use bifrost_platform_plugin.Float.{Float, fin, ltb_f, leb_f, sub_f, max_f, scale_f, abs_f, zero_f}
use bifrost_platform_plugin.Effects.{
  Exn, timeout_error, Outcome, returned, raised, Io, pure, raise, attempt, is_cancelled, ◌>>=◌,
  ◌>>◌,
}
use bifrost_platform_plugin.Json.{Json, null, number, string, array, Dict, items_of, number_or_null}
use bifrost_platform_plugin.Ib.{stock, OptionChain, Ib}
use bifrost_platform_plugin.IbOps.Quotes.{
  Quote, fetch_option_quote_one_shot, fetch_underlying_price,
}

-- min_s <= s <= max_s around the price; 0.5 and 5.0 are numbers of ticks.
unfoldable pub near_price : Float → Float → Bool
near_price price s =
    leb_f (max_f (fin (pos 500000)) (scale_f 1 100 price)) s && leb_f s (scale_f 5 2 price)

unfoldable pub filter_f : (Float → Bool) → List Float → List Float
filter_f test [] = []
filter_f test (s ∷ strikes) = let rest = filter_f test strikes in if test s then s ∷ rest else rest

abbrev pub at_least_five : Float → Bool
at_least_five s = leb_f (fin (pos 5000000)) s

unfoldable pub price_filter : Option Float → List Float → List Float
price_filter none strikes = filter_f at_least_five strikes
price_filter (some price) strikes =
    if ltb_f zero_f price
    then filter_f (near_price price) strikes
    else filter_f at_least_five strikes

-- sorted(strikes, key=...): strikes with the same key stay in order
unfoldable pub insert_by : (Float → Float) → Float → List Float → List Float
insert_by key s [] = s ∷ []
insert_by key s (t ∷ strikes) =
    let later = insert_by key s strikes in
    if leb_f (key s) (key t) then s ∷ t ∷ strikes else t ∷ later

unfoldable pub sort_by : (Float → Float) → List Float → List Float
sort_by key [] = []
sort_by key (s ∷ strikes) = insert_by key s (sort_by key strikes)

-- max_contracts // 2, or 0 where that is below 0
unfoldable pub half_of : ℤ → ℕ
half_of (pos n) = n / 2
half_of (negsuc n) = 0

unfoldable pub select_strikes : Option Float → ℕ → List Float → List Float
select_strikes none count filtered = take count filtered
select_strikes (some price) count filtered =
    take count (sort_by (λ s. abs_f (sub_f s price)) filtered)

-- The strikes to quote.
unfoldable pub selected_strikes : Option Float → ℤ → List Float → List Float
selected_strikes price max_contracts strikes =
    let filtered = price_filter price strikes in
    select_strikes price (min (half_of max_contracts) (length filtered)) filtered

unfoldable pub value_of : (Quote → Option Float) → Option Quote → Json
value_of field none = null
value_of field (some q) = number_or_null (field q)

unfoldable pub quote_row : Float → Text → Option Quote → Dict
quote_row strike right quote =
    (txt "strike", number strike)
    ∷ (txt "right", string right)
    ∷ (txt "bid", value_of (λ q. q.bid) quote)
    ∷ (txt "ask", value_of (λ q. q.ask) quote)
    ∷ (txt "last", value_of (λ q. q.last) quote)
    ∷ (txt "mid", value_of (λ q. q.mid) quote)
    ∷ []

-- {e.strip() for e in ...}, sorted
unfoldable pub insert_once : Text → List Text → List Text
insert_once a [] = a ∷ []
insert_once a (b ∷ bs) =
    let later = insert_once a bs in
    if text_eq a b then b ∷ bs else if leb_text a b then a ∷ b ∷ bs else b ∷ later

unfoldable pub add_expirations : List Text → List Text → List Text
add_expirations [] set = set
add_expirations (e ∷ es) set = add_expirations es (insert_once (strip e) set)

-- A strike is a number: nan is no member.
unfoldable pub insert_strike : Float → List Float → List Float
insert_strike a [] = a ∷ []
insert_strike a (b ∷ bs) =
    let later = insert_strike a bs in
    if ltb_f a b then a ∷ b ∷ bs else if ltb_f b a then b ∷ later else b ∷ bs

unfoldable pub add_strikes : List Float → List Float → List Float
add_strikes [] set = set
add_strikes (s ∷ ss) set = add_strikes ss (insert_strike s set)

unfoldable pub add_chains : List OptionChain → List Text × List Float → List Text × List Float
add_chains [] sets = sets
add_chains (c ∷ chains) (expirations, strikes) =
    add_chains chains (add_expirations c.expirations expirations, add_strikes c.strikes strikes)

unfoldable pub chain_fields : List Text → List Float → Dict
chain_fields expirations strikes =
    (txt "expirations", array (items_of (map string expirations)))
    ∷ (txt "strikes", array (items_of (map number strikes)))
    ∷ []

unfoldable pub chain_error : Text → Dict
chain_error message = chain_fields [] [] ++ (txt "error", string message) ∷ []

-- int(stock.conId or 0), or 0 where the qualification failed
unfoldable pub con_id_or_zero : Outcome ℤ → ℤ
con_id_or_zero (returned z) = z
con_id_or_zero (raised e) = pos 0

unfoldable pub failure_text : Exn → Text
failure_text e = elim e.kind [ timeout_error ↦ txt "timeout" | _ ↦ e.message ]

unfoldable pub chains_result : {W : Type 0} → Outcome (List OptionChain) → Io W Dict
chains_result (returned chains) =
    pure (let sets = add_chains chains ([], []) in chain_fields sets.0 sets.1)
chains_result (raised e) = if is_cancelled e then raise e else pure (chain_error (failure_text e))

-- `except Exception` lets a cancellation through.
unfoldable pub pass_cancelled : {W A : Type 0} → Outcome A → Io W (Unit {0})
pass_cancelled (returned a) = pure tt
pass_cancelled (raised e) = if is_cancelled e then raise e else pure tt

module _ {W : Type 0} (api : Ib W) (sleep : Float → W → W) where
  unfoldable pub quote_side : ℕ → Text → Text → Float → Float → Text → Io W Dict
  quote_side ib symbol expiration pacing_sec strike right =
      fetch_option_quote_one_shot api ib symbol expiration strike right >>= λ quote w.
      (returned (quote_row strike right quote), sleep pacing_sec w)

  -- The loops over the strikes and the two rights.
  unfoldable pub quote_strikes : ℕ → Text → Text → Float → List Float → Io W (List Dict)
  quote_strikes ib symbol expiration pacing_sec [] = pure []
  quote_strikes ib symbol expiration pacing_sec (s ∷ strikes) =
      quote_side ib symbol expiration pacing_sec s (txt "C") >>= λ call.
      quote_side ib symbol expiration pacing_sec s (txt "P") >>= λ put_row.
      quote_strikes ib symbol expiration pacing_sec strikes >>= λ rows. pure (call ∷ put_row ∷ rows)

  -- The price is read only where no strikes are given.
  unfoldable pub price_if : ℕ → Text → List Float → Io W (Option Float)
  price_if ib symbol [] = fetch_underlying_price api ib symbol
  price_if ib symbol (s ∷ strikes) = pure none

  unfoldable pub fetch_option_snapshot :
      ℕ → Text → Text → List Float → ℤ → Float → Io W (List Dict × Option Float)
  fetch_option_snapshot ib symbol expiration strikes max_contracts pacing_sec =
      price_if ib symbol strikes >>= λ price.
      quote_strikes ib symbol expiration pacing_sec (selected_strikes price max_contracts strikes)
      >>= λ rows. pure (rows, price)

  unfoldable pub chains_of : ℕ → Text → Io W Dict
  chains_of ib sym = attempt (api.qualify ib (stock sym)) >>= λ con_id.
      pass_cancelled con_id
      >> (attempt (api.option_chains ib sym (con_id_or_zero con_id)) >>= chains_result)

  unfoldable pub fetch_option_expirations : ℕ → Text → Io W Dict
  fetch_option_expirations ib symbol =
      if text_eq (upper (strip symbol)) []
      then pure (chain_error (txt "missing_symbol"))
      else chains_of ib (upper (strip symbol))
