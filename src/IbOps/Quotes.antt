-- ===== src/IbOps/Quotes.antt =====
-- fetch_underlying_price and fetch_option_quote_one_shot: market data read once.
use bifrost_platform_plugin.Prelude.{
  ℕ, zero, suc, Bool, true, false, not, ◌||◌, [], ◌∷◌, Option, none, some, if◌then◌else◌,
}
use bifrost_platform_plugin.Text.{Text, txt, strip, upper, text_eq, mem_text}
use bifrost_platform_plugin.Float.{Float, ltb_f, add_f, scale_f, zero_f}
use bifrost_platform_plugin.Effects.{
  Outcome, returned, raised, Io, pure, raise, attempt, is_cancelled, ◌>>=◌, ◌>>◌,
}
use bifrost_platform_plugin.Ib.{Instrument, stock, option, TickerView, Ib}

pub record Quote : Type 0 where
  pub bid : Option Float
  pub ask : Option Float
  pub last : Option Float
  pub mid : Option Float

abbrev pub no_quote : Quote
no_quote = record { bid = none; ask = none; last = none; mid = none }

abbrev pub is_some : Option Float → Bool
is_some none = false
is_some (some x) = true

-- A value above 0 replaces the one before.
unfoldable pub take_value : Option Float → Option Float → Option Float
take_value none old = old
take_value (some x) old = if ltb_f zero_f x then some x else old

unfoldable pub mid_of : Option Float → Option Float → Option Float → Option Float → Option Float
mid_of (some b) (some a) last mid = some (scale_f 1 2 (add_f b a))
mid_of bid ask (some l) mid = some l
mid_of bid ask none mid = mid

-- One round of the loop, on what the ticker shows.
unfoldable pub look : TickerView → Quote → Quote
unfolding take_value
look v q =
    let bid = take_value v.bid q.bid in
    let ask = take_value v.ask q.ask in
    let last = take_value v.last q.last in
    record { bid = bid; ask = ask; last = last; mid = mid_of bid ask last q.mid }

unfoldable pub has_value : Quote → Bool
has_value q = is_some q.bid || is_some q.ask || is_some q.last

-- After the loop.
unfoldable pub found : Quote → Option Quote
found q = if has_value q then some q else none

-- `except Exception: return None`
unfoldable pub or_none : {W A : Type 0} → Outcome (Option A) → Io W (Option A)
or_none (returned r) = pure r
or_none (raised e) = if is_cancelled e then raise e else pure none

unfoldable pub option_instrument : Text → Text → Float → Text → Instrument
option_instrument symbol expiry strike right =
    option (upper (strip symbol)) (strip expiry) strike (upper right)

-- The last price above 0.
unfoldable pub positive : Option Float → Option Float
unfolding take_value
positive last = take_value last none

module _ {W : Type 0} (api : Ib W) where
  -- `for _ in range(rounds)`
  unfoldable pub watch_quote : ℕ → ℕ → Quote → Io W (Option Quote)
  watch_quote zero ticker q = pure (found q)
  watch_quote (suc rounds) ticker q = api.view ticker >>= λ v.
      let more = watch_quote rounds ticker (look v q) in
      if has_value (look v q) then pure (some (look v q)) else more

  -- From reqMktData on; `finally` cancels the stream that was opened.
  unfoldable pub read_stream : ℕ → Instrument → Io W (Option Quote)
  read_stream ib contract = api.open_stream ib contract >>= λ ticker.
      attempt (watch_quote 4 ticker no_quote) >>= λ r.
      attempt (api.close_stream ib contract) >>= λ closed. or_none r

  unfoldable pub quote_contract : ℕ → Instrument → Io W (Option Quote)
  quote_contract ib contract =
      attempt (api.qualify ib contract >>= λ con_id. read_stream ib contract) >>= or_none

  unfoldable pub fetch_option_quote_one_shot : ℕ → Text → Text → Float → Text → Io W (Option Quote)
  fetch_option_quote_one_shot ib symbol expiry strike right =
      if text_eq symbol []
        || text_eq (strip expiry) []
        || not (mem_text (upper right) (txt "C" ∷ txt "P" ∷ []))
      then pure none
      else quote_contract ib (option_instrument symbol expiry strike right)

  unfoldable pub price_or :
      Option Float → ℕ → Instrument → Io W (Option Float) → Io W (Option Float)
  price_or (some v) ib contract more = api.close_stream ib contract >> pure (some v)
  price_or none ib contract more = more

  unfoldable pub watch_price : ℕ → ℕ → Instrument → ℕ → Io W (Option Float)
  watch_price zero ib contract ticker = api.close_stream ib contract >> pure none
  watch_price (suc rounds) ib contract ticker = api.view ticker >>= λ v.
      price_or (positive v.last) ib contract (watch_price rounds ib contract ticker)

  unfoldable pub price_of : ℕ → Instrument → Io W (Option Float)
  price_of ib contract =
      attempt (
        api.qualify ib contract >>= λ con_id.
        api.open_stream ib contract >>= λ ticker. watch_price 6 ib contract ticker)
      >>= or_none

  unfoldable pub fetch_underlying_price : ℕ → Text → Io W (Option Float)
  fetch_underlying_price ib symbol =
      if text_eq (upper (strip symbol)) []
      then pure none
      else price_of ib (stock (upper (strip symbol)))
