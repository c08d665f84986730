-- ===== src/Operator.antt =====
-- src/bifrost_plugin/ib_gateway/operator.py: the consumer of the operator command streams. The
-- handler of a command is the engine's `handle_command`, a parameter.
pub mod Log
pub mod Replies
pub mod Confine
pub mod Outage
pub mod Reach
use bifrost_platform_plugin.Prelude.{
  ℕ, zero, suc, Bool, true, false, not, ◌||◌, List, [], ◌∷◌, ◌++◌, Option, none, some,
  if◌then◌else◌,
}
use bifrost_platform_plugin.Text.{Text, txt, Fields, lower, mem_text, contains}
use bifrost_platform_plugin.Effects.{
  Exn, response_error, Outcome, returned, raised, Io, pure, raise, attempt, lift, gets, modify,
  for_each, ◌>>=◌, ◌>>◌, Env,
}
use bifrost_platform_plugin.Json.{boolean, string, Dict, merge, get_json, Python}
use bifrost_platform_plugin.Redis.{Redis, StreamReply}
use bifrost_platform_plugin.RedisKeys.{
  ib_operator_cmd_stream, ib_operator_consumer_group, ib_operator_env_cmd_streams,
}
use bifrost_platform_plugin.Protocol.{
  read_only_ops, CommandMessage, is_expired, Dumped, fits, failed, dumps_result, default_max_bytes,
  Parsed, accepted, rejected, parse_stream_fields,
}
use bifrost_platform_plugin.Writer.{write_operator_result}

abbrev pub Handler : Type 0 → Type 0
Handler W = CommandMessage → Io W Dict

abbrev pub consumer_name : Text → Text
consumer_name hostname = txt "ib-gateway-" ++ hostname

-- The streams that the loop reads.
abbrev pub streams : List Text
streams = ib_operator_cmd_stream ∷ ib_operator_env_cmd_streams

unfoldable pub op_allowed_on_stream : Text → Text → Bool
op_allowed_on_stream op stream =
    not (mem_text stream ib_operator_env_cmd_streams) || mem_text op read_only_ops

-- The envelope of a command that failed.
unfoldable pub failure : Text → Text → Dict
failure req_id message =
    (txt "ok", boolean false) ∷ (txt "error", string message) ∷ (txt "req_id", string req_id) ∷ []

-- {"ok": data.get("ok", False), "req_id": msg.req_id, **data}
unfoldable pub success : Text → Dict → Dict
success req_id reply =
    merge
      ((txt "ok", get_json (txt "ok") (boolean false) reply) ∷ (txt "req_id", string req_id) ∷ [])
      reply

-- The envelope that the handler's outcome gives.
unfoldable pub envelope_of : Text → Outcome Dict → Dict
envelope_of req_id (returned reply) = success req_id reply
envelope_of req_id (raised e) = failure req_id e.message

unfoldable pub fields_of : Option Fields → Fields
fields_of none = []
fields_of (some fields) = fields

unfoldable pub is_busy_group : Exn → Bool
is_busy_group e = contains (txt "busygroup") (lower e.message)

unfoldable pub is_no_group : Exn → Bool
is_no_group e = elim e.kind [
  | response_error ↦ contains (txt "nogroup") (lower e.message)
  | _ ↦ false
]

module _ {W : Type 0} (rds : Redis W) (py : Python) (env : Env W) where
  unfoldable pub tolerate_busy : Outcome (Unit {0}) → Io W (Unit {0})
  tolerate_busy (returned done) = pure tt
  tolerate_busy (raised e) = if is_busy_group e then pure tt else raise e

  unfoldable pub ensure_stream_and_group : Text → Text → Io W (Unit {0})
  ensure_stream_and_group stream group = do
    made ← attempt (rds.xgroup_create stream group)
    tolerate_busy made

  unfoldable pub ensure_all : Io W (Unit {0})
  ensure_all =
      for_each (λ stream. ensure_stream_and_group stream ib_operator_consumer_group) streams

  -- `if raw: writer.write_operator_result(...)`
  unfoldable pub write_if : Text → Dict → Text → Io W (Unit {0})
  write_if req_id envelope [] = pure tt
  write_if req_id envelope (c ∷ raw) = write_operator_result rds py env req_id envelope

  unfoldable pub write_again : Text → Dict → Dumped → Io W (Unit {0})
  write_again req_id envelope (fits raw) = write_if req_id envelope raw
  write_again req_id envelope (failed message) = pure tt

  unfoldable pub write_dumped : Text → Dict → Dumped → Io W (Unit {0})
  write_dumped req_id envelope (fits raw) = write_if req_id envelope raw
  write_dumped req_id envelope (failed message) = do
    again ← lift (dumps_result py (failure req_id message) default_max_bytes)
    write_again req_id (failure req_id message) again

  -- From `raw, enc_err = dumps_result(envelope)` to the write.
  unfoldable pub respond : Text → Dict → Io W (Unit {0})
  respond req_id envelope = do
    dumped ← lift (dumps_result py envelope default_max_bytes)
    write_dumped req_id envelope dumped

  -- The envelope of an accepted command, at the clock's reading.
  unfoldable pub answer_at : Handler W → Text → CommandMessage → ℕ → Io W Dict
  answer_at handler stream msg now =
      if is_expired now msg
      then pure (failure msg.req_id (txt "deadline_expired"))
      else if not (op_allowed_on_stream msg.op stream)
      then pure (failure msg.req_id (txt "op_not_allowed_on_stream:" ++ msg.op))
      else (attempt (handler msg) >>= λ reply. pure (envelope_of msg.req_id reply))

  unfoldable pub answer : Handler W → Text → CommandMessage → Io W Dict
  answer handler stream msg = gets env.clock_ms >>= answer_at handler stream msg

  unfoldable pub serve_parsed : Handler W → Text → Parsed → Io W (Unit {0})
  serve_parsed handler stream (rejected message) = pure tt
  serve_parsed handler stream (accepted msg) = do
    envelope ← answer handler stream msg
    respond msg.req_id envelope

  unfoldable pub process_entry : Handler W → Text → Text → Text × Option Fields → Io W (Unit {0})
  process_entry handler stream group (entry_id, fields) = do
    serve_parsed handler stream (parse_stream_fields py (fields_of fields) entry_id)
    rds.xack stream group entry_id

  unfoldable pub process_stream : Handler W → StreamReply → Io W (Unit {0})
  process_stream handler (stream, entries) =
      for_each (process_entry handler stream ib_operator_consumer_group) entries

  unfoldable pub handle_read : Handler W → Outcome (List StreamReply) → Io W (Unit {0})
  handle_read handler (returned reply) = for_each (process_stream handler) reply
  handle_read handler (raised e) = if is_no_group e then ensure_all else modify (env.sleep 1)

  -- One round of the while loop.
  unfoldable pub poll : Handler W → Text → ℕ → Io W (Unit {0})
  poll handler hostname block_ms = do
    reply ←
        attempt
          (rds.xreadgroup ib_operator_consumer_group (consumer_name hostname) streams 10 block_ms)
    handle_read handler reply

  -- At most `fuel` rounds: true if the loop ended by the stop event.
  unfoldable pub poll_until : ℕ → Handler W → Text → ℕ → Io W Bool
  poll_until zero handler hostname block_ms w = (returned (env.stopped w), w)
  poll_until (suc fuel) handler hostname block_ms w =
      let more = (do poll handler hostname block_ms; poll_until fuel handler hostname block_ms) w in
      if env.stopped w then (returned true, w) else more

  unfoldable pub operator_loop : ℕ → Handler W → Text → ℕ → Io W Bool
  operator_loop fuel handler hostname block_ms = do
    ensure_all
    poll_until fuel handler hostname block_ms
