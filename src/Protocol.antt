-- ===== src/Protocol.antt =====
-- src/bifrost_plugin/ib_gateway/protocol.py: the operator protocol, version 1.
pub mod Laws
pub mod Reply
use bifrost_platform_plugin.Prelude.{
  ℕ, Bool, true, false, not, ◌&&◌, List, [], ◌∷◌, ◌++◌, Option, none, some, ltb, if◌then◌else◌, ℤ,
  pos, ltb_ℤ, map,
}
use bifrost_platform_plugin.Text.{
  Text, txt, Fields, strip, text_eq, mem_text, get, get_text, int_of_text,
}
use bifrost_platform_plugin.Effects.{Outcome, returned, raised, Exn, ExnKind, value_error}
use bifrost_platform_plugin.Json.{Json, object, Dict, dict_of, Python, utf8_length}

abbrev pub protocol_version : Text
protocol_version = txt "1"

abbrev pub all_ops : List Text
all_ops =
    txt "fetch_bars"
    ∷ txt "fetch_option_expirations"
    ∷ txt "fetch_option_snapshot"
    ∷ txt "refresh_option_cache"
    ∷ txt "fetch_executions"
    ∷ txt "fetch_accounts_snapshot"
    ∷ txt "ping"
    ∷ txt "disconnect_all"
    ∷ txt "reconnect_all"
    ∷ []

abbrev pub read_only_ops : List Text
read_only_ops =
    txt "fetch_bars"
    ∷ txt "fetch_option_expirations"
    ∷ txt "fetch_option_snapshot"
    ∷ txt "refresh_option_cache"
    ∷ txt "fetch_executions"
    ∷ txt "fetch_accounts_snapshot"
    ∷ txt "ping"
    ∷ []

abbrev pub prod_only_ops : List Text
prod_only_ops = txt "disconnect_all" ∷ txt "reconnect_all" ∷ []

pub record CommandMessage : Type 0 where
  pub req_id : Text
  pub version : Text
  pub op : Text
  pub payload : Dict
  pub caller : Text
  pub deadline_ms : Option ℤ
  pub stream_id : Text

-- CommandMessage.is_expired, at the clock in milliseconds
unfoldable pub is_expired : ℕ → CommandMessage → Bool
is_expired now_ms msg = elim msg.deadline_ms [ none ↦ false | some d ↦ ltb_ℤ d (pos now_ms) ]

-- The pair (text, error) with exactly one part, or the exception that passes through.
pub data Dumped : Type 0 where
  fits : Text → Dumped
  failed : Text → Dumped

unfoldable pub catch_encode : Outcome Text → ℕ → Outcome Dumped
unfolding utf8_length
catch_encode (returned s) max_bytes =
    returned (if ltb max_bytes (utf8_length s) then failed (txt "result_too_large") else fits s)
catch_encode (raised e) max_bytes = elim e.kind [
  | value_error ↦ returned (failed (txt "json_encode_error:" ++ e.message))
  | _ ↦ raised e
]

unfoldable pub dumps_result : Python → Dict → ℕ → Outcome Dumped
dumps_result c envelope max_bytes = catch_encode (c.dumps_compact envelope) max_bytes

abbrev pub default_max_bytes : ℕ
default_max_bytes = 512000

-- The pair (message, error) with exactly one part.
pub data Parsed : Type 0 where
  accepted : CommandMessage → Parsed
  rejected : Text → Parsed

-- a or b
unfoldable pub or_text : Text → Text → Text
or_text [] b = b
or_text (c ∷ a) b = c ∷ a

-- The payload: a value that is no dict becomes the empty one.
unfoldable pub payload_of : Json → Dict
payload_of (object d) = dict_of d
payload_of _ = []

-- `none` where there is no deadline, `some none` where it is no integer
unfoldable pub read_deadline : Option Text → Option (Option ℤ)
read_deadline none = none
read_deadline (some dm) = if text_eq (strip dm) [] then none else some (int_of_text dm)

unfoldable pub finish_parse :
    Text → Text → Text → Text → Option (Option ℤ) → Text → Option Json → Parsed
finish_parse req_id ver op caller deadline stream_id none = rejected (txt "invalid_payload_json")
finish_parse req_id ver op caller (some none) stream_id (some payload) =
    rejected (txt "invalid_deadline_ms")
finish_parse req_id ver op caller (some (some d)) stream_id (some payload) = accepted (record {
  req_id = req_id;
  version = ver;
  op = op;
  payload = payload_of payload;
  caller = caller;
  deadline_ms = some d;
  stream_id = stream_id;
})
finish_parse req_id ver op caller none stream_id (some payload) = accepted (record {
  req_id = req_id;
  version = ver;
  op = op;
  payload = payload_of payload;
  caller = caller;
  deadline_ms = none;
  stream_id = stream_id;
})

unfoldable pub parse_stream_fields : Python → Fields → Text → Parsed
parse_stream_fields c fields stream_id =
    let req_id = strip (get_text (txt "req_id") fields) in
    let ver =
      or_text (strip (or_text (get_text (txt "v") fields) protocol_version)) protocol_version in
    let op = strip (get_text (txt "op") fields) in
    let payload_raw = or_text (get_text (txt "payload") fields) (txt "{}") in
    let caller = or_text (strip (get_text (txt "caller") fields)) (txt "unknown") in
    if text_eq req_id []
    then rejected (txt "missing_req_id")
    else if not (text_eq ver protocol_version)
    then rejected (txt "unsupported_version:" ++ ver)
    else if text_eq op []
    then rejected (txt "missing_op")
    else if not (mem_text op all_ops)
    then rejected (txt "unknown_op:" ++ op)
    else finish_parse req_id ver op caller (read_deadline (get (txt "deadline_ms") fields))
        stream_id (c.loads payload_raw)
