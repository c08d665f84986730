-- ===== src/IbOps/OpenOrders.antt =====
-- _order_to_dict and fetch_open_orders: the working orders of a session.
use bifrost_platform_plugin.Prelude.{ℕ, true, not, ◌≡◌, List, [], ◌∷◌, Option, some, if◌then◌else◌}
use bifrost_platform_plugin.Text.{Text, txt, text_eq, join}
use bifrost_platform_plugin.Float.{Float}
use bifrost_platform_plugin.Effects.{Outcome, returned, raised, Io, pure, lift, ◌>>=◌}
use bifrost_platform_plugin.Json.{number, string, Dict, number_or_null, truthy, Python}
use bifrost_platform_plugin.RedisKeys.{stk_contract_key}
use bifrost_platform_plugin.OnDemand.{parse_opt_contract_key}
use bifrost_platform_plugin.OnDemand.Opt.{opt_key, IsNormal, parse-opt_key}
use bifrost_platform_plugin.Ib.{Contract, Trade, Ib}

-- str(contract.strike or "")
unfoldable pub strike_text : Python → Contract → Text
strike_text py c = if truthy (number c.strike) then py.str_of (number c.strike) else []

unfoldable pub order_contract_key : Python → Contract → Outcome Text
order_contract_key py c =
    if text_eq c.sec_type (txt "STK")
    then stk_contract_key c.symbol
    else returned (join b'|' (c.symbol ∷ c.sec_type ∷ c.expiry ∷ strike_text py c ∷ c.right ∷ []))

unfoldable pub order_fields : Trade → Text → Dict
order_fields t contract_key =
    (txt "order_id", t.order_id)
    ∷ (txt "perm_id", t.perm_id)
    ∷ (txt "account_id", t.account)
    ∷ (txt "symbol", string t.contract.symbol)
    ∷ (txt "sec_type", string t.contract.sec_type)
    ∷ (txt "action", t.action)
    ∷ (txt "total_quantity", number t.total_quantity)
    ∷ (txt "filled", number t.filled)
    ∷ (txt "remaining", number t.remaining)
    ∷ (txt "limit_price", number_or_null t.lmt_price)
    ∷ (txt "status", t.status)
    ∷ (txt "contract_key", string contract_key)
    ∷ []

unfoldable pub order_row : Trade → Outcome Text → Outcome Dict
order_row t (returned contract_key) = returned (order_fields t contract_key)
order_row t (raised e) = raised e

unfoldable pub order_to_dict : Python → Trade → Outcome Dict
order_to_dict py t = order_row t (order_contract_key py t.contract)

module _ {W : Type 0} (api : Ib W) (py : Python) where
  -- [_order_to_dict(t) for t in trades]
  unfoldable pub order_rows : List Trade → Io W (List Dict)
  order_rows [] = pure []
  order_rows (t ∷ trades) =
      lift (order_to_dict py t) >>= λ row. order_rows trades >>= λ rows. pure (row ∷ rows)

  -- A session of ib_insync has reqOpenOrdersAsync.
  unfoldable pub fetch_open_orders : ℕ → Io W (List Dict)
  fetch_open_orders ib w =
      if not (api.is_connected ib w)
      then (returned [], w)
      else (api.open_orders ib >>= order_rows) w

  -- The order of an option in normal form gets the key under which on-demand quotes register the
  -- same contract: it parses to the symbol, the expiry, the strike and the right of the order.
  pub option_order_key_parses :
      (read_float : Text → Option Float) (o : Contract) (c : ℕ) (rest expiry : Text)
      (strike : Float) (right : ℕ)
      → IsNormal read_float c rest expiry (py.str_of (number strike)) strike right
      → truthy (number strike) ≡ true
      → (key : Text) × (order_contract_key py (record o {
        symbol = c ∷ rest;
        sec_type = txt "OPT";
        expiry = expiry;
        strike = strike;
        right = right ∷ [];
      })
          ≡ returned key)
        × (parse_opt_contract_key read_float key
            ≡ some (record {
              symbol = c ∷ rest;
              expiry = expiry;
              strike = strike;
              right = right ∷ [];
            }))
  unfolding order_contract_key strike_text text_eq
  option_order_key_parses read_float o c rest expiry strike right n given = (
    opt_key (c ∷ rest) expiry (py.str_of (number strike)) (right ∷ []),
    simp given,
    parse-opt_key read_float c rest expiry (py.str_of (number strike)) strike right n,
  )
