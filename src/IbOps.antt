-- ===== src/IbOps.antt =====
-- src/bifrost_plugin/ib_gateway/ib_ops.py: the reads of a TWS session. Here is
-- _execution_contract_fields, what the execution writer reads beyond the fill itself.
pub mod Fields
pub mod Accounts
pub mod OpenOrders
pub mod Executions
pub mod Quotes
pub mod Streams
pub mod Snapshot
pub mod Selection
use bifrost_platform_plugin.Prelude.{
  ℕ, Bool, true, false, not, List, [], ◌∷◌, Option, none, some, if◌then◌else◌, ℤ, pos, take,
}
use bifrost_platform_plugin.Text.{Text, txt, strip, upper, text_eq, mem_text}
use bifrost_platform_plugin.Float.{Float}
use bifrost_platform_plugin.Ib.{Contract, Execution}
use bifrost_platform_plugin.Json.{Json, integer, number, string, Dict, put, truthy}

-- if v: fields[key] = v
unfoldable pub put_if : Bool → Text → Json → Dict → Dict
put_if true key v fields = put key v fields
put_if false key v fields = fields

abbrev pub is_given_text : Text → Bool
is_given_text s = not (text_eq s [])

-- `try: if multiplier: ... except ValueError: pass`
unfoldable pub put_float : Option Float → Text → Dict → Dict
put_float none key fields = fields
put_float (some x) key fields = put key (number x) fields

unfoldable pub is_option_type : Text → Bool
is_option_type sec_type = mem_text (upper (strip sec_type)) (txt "OPT" ∷ txt "FOP" ∷ [])

-- (contract.right or "").strip().upper()[:1]
unfoldable pub right_letter : Contract → Text
right_letter c = take 1 (upper (strip c.right))

unfoldable pub multiplier_of : (Text → Option Float) → Text → Option Float
multiplier_of read_float s = if text_eq s [] then none else read_float s

unfoldable pub contract_fields : Option Contract → Dict → Dict
contract_fields none fields = fields
contract_fields (some c) fields =
    put_if (is_given_text (strip c.currency)) (txt "currency") (string (strip c.currency))
      (put_if (truthy (integer c.con_id)) (txt "conid") (integer c.con_id) fields)

unfoldable pub execution_fields : Option Execution → Dict → Dict
execution_fields none fields = fields
execution_fields (some ex) fields =
    put_if (truthy (number ex.cum_qty)) (txt "cum_qty") (number ex.cum_qty) (
      put_if (is_given_text (strip ex.exchange)) (txt "exchange") (string (strip ex.exchange))
        fields)

-- From the test of the security type on.
unfoldable pub option_fields : (Text → Option Float) → Contract → Dict → Dict
option_fields read_float c fields =
    put_float (multiplier_of read_float (strip c.multiplier)) (txt "multiplier") (
      put_if (mem_text (right_letter c) (txt "C" ∷ txt "P" ∷ [])) (txt "option_right")
        (string (right_letter c))
        (put_if (truthy (number c.strike)) (txt "strike") (number c.strike) (
          put_if (is_given_text (strip c.expiry)) (txt "expiry") (string (strip c.expiry)) fields)))

unfoldable pub option_part : (Text → Option Float) → Option Contract → Dict → Dict
option_part read_float none fields = fields
option_part read_float (some c) fields =
    if is_option_type c.sec_type then option_fields read_float c fields else fields

unfoldable pub execution_contract_fields :
    (Text → Option Float) → Option Contract → Option Execution → Dict
execution_contract_fields read_float contract ex =
    option_part read_float contract (execution_fields ex (contract_fields contract []))
