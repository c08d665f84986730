-- ===== src/Operator/Outage.antt =====
-- Failures of Redis in the operator loop: a failed read is retried, a failed write ends the loop.
use bifrost_platform_plugin.Prelude.{
  ℕ, suc, ◌≡◌, refl, ap, sym, zero, Bool-cases, inl, inr, false, List, ◌∷◌, ◌++◌, Option,
}
use bifrost_platform_plugin.Text.{Text, txt, Fields}
use bifrost_platform_plugin.Effects.{Exn, returned, raised, for_each, Env}
use bifrost_platform_plugin.Json.{Dict, Python}
use bifrost_platform_plugin.Redis.{Redis, StreamReply}
use bifrost_platform_plugin.RedisKeys.{ib_operator_consumer_group}
use bifrost_platform_plugin.Protocol.{CommandMessage, is_expired, accepted}
use bifrost_platform_plugin.Writer.{write_operator_result}
use bifrost_platform_plugin.Operator.{
  Handler, envelope_of, op_allowed_on_stream, failure, is_no_group, write_if, write_again,
  write_dumped, respond, answer, answer_at, serve_parsed, process_entry, process_stream,
  handle_read, poll, poll_until, streams, consumer_name,
}
use bifrost_platform_plugin.Operator.Replies.{parsed, HasRoom, Encodes, dumps_cases}

module _ {W : Type 0} (rds : Redis W) (py : Python) (env : Env W) where
  -- SET is refused with `e`, whatever is set.
  abbrev pub RefusesSet : Exn → Type 0
  RefusesSet e =
      (key value : Text) (ttl : Option ℕ) (w : W) → (rds.set key value ttl w).0 ≡ raised e

  write_operator_result-raised :
      (e : Exn) (req_id : Text) (envelope : Dict) (w : W)
      → Encodes py
      → RefusesSet e
      → (write_operator_result rds py env req_id envelope w).0 ≡ raised e
  unfolding write_operator_result
  write_operator_result-raised e req_id envelope w enc down =
      let (s, d) = enc.dumps_text envelope in rw (d, down _ s _ w)

  respond-raised :
      (e : Exn) (msg : CommandMessage) (envelope : Dict) (w : W)
      → Encodes py
      → RefusesSet e
      → HasRoom py (accepted msg)
      → (respond rds py env msg.req_id envelope w).0 ≡ raised e
  unfolding respond write_dumped write_if write_again
  respond-raised e msg envelope w enc down (c, s, room) = elim (dumps_cases py envelope enc) [
    | inl (c', s', fit) ↦ rw fit (write_operator_result-raised e msg.req_id envelope w enc down)
    | inr big ↦
        rw (big, room)
          (write_operator_result-raised e msg.req_id (failure msg.req_id (txt "result_too_large")) w
            enc down)
  ]

  answer_returns :
      (handler : Handler W) (stream : Text) (msg : CommandMessage) (w : W)
      → (envelope : Dict) × ((answer rds py env handler stream msg w).0 ≡ returned envelope)
  unfolding answer answer_at
  answer_returns handler stream msg w = elim (Bool-cases (is_expired (env.clock_ms w) msg)) [
    | inl late ↦ (failure msg.req_id (txt "deadline_expired"), rw late)
    | inr early ↦ elim (Bool-cases (op_allowed_on_stream msg.op stream)) [
      | inl go ↦ (envelope_of msg.req_id (handler msg w).0, rw (early, go))
      | inr stay ↦
          (failure msg.req_id (txt "op_not_allowed_on_stream:" ++ msg.op), rw (early, stay))
    ]
  ]

  serve_parsed-raised :
      (e : Exn) (handler : Handler W) (stream : Text) (msg : CommandMessage) (w : W)
      → Encodes py
      → RefusesSet e
      → HasRoom py (accepted msg)
      → (serve_parsed rds py env handler stream (accepted msg) w).0 ≡ raised e
  unfolding serve_parsed
  serve_parsed-raised e handler stream msg w enc down room =
      let (envelope, e') = answer_returns handler stream msg w in
      rw e' (respond-raised e msg envelope (answer rds py env handler stream msg w).1 enc down room)

  -- While Redis refuses every SET, a round whose reply begins with a command ends the loop: for
  -- whatever handler, where JSON answers and the too-large notice fits, the exception leaves it.
  pub write_outage_ends_loop :
      (e : Exn) (handler : Handler W) (hostname : Text) (block_ms fuel : ℕ) (w w' : W)
      (stream : Text) (entry : Text × Option Fields) (more : List (Text × Option Fields))
      (rest : List StreamReply) (msg : CommandMessage)
      → Encodes py
      → RefusesSet e
      → env.stopped w ≡ false
      → rds.xreadgroup ib_operator_consumer_group (consumer_name hostname) streams 10 block_ms w
        ≡ (returned ((stream, entry ∷ more) ∷ rest), w')
      → parsed py entry ≡ accepted msg
      → HasRoom py (accepted msg)
      → (poll_until rds py env (suc fuel) handler hostname block_ms w).0 ≡ raised e
  unfolding poll_until poll handle_read for_each process_stream process_entry
  write_outage_ends_loop e handler hostname block_ms fuel w w' stream (id, fields) more rest msg enc
        down on read ok room =
      rw (on, read, ok, serve_parsed-raised e handler stream msg w' enc down room)

  -- While Redis refuses every read, with anything but a missing group, the loop goes on: it
  -- returns, after all its rounds or by the stop event, and raises nothing.
  pub read_outage_keeps_loop :
      (e : Exn) (handler : Handler W) (hostname : Text) (block_ms fuel : ℕ) (w : W)
      → is_no_group e ≡ false
      → ((v : W)
          → (rds.xreadgroup ib_operator_consumer_group
              (consumer_name hostname)
              streams
              10
              block_ms
              v).0
            ≡ raised e)
      → let end = poll_until rds py env fuel handler hostname block_ms w in
        end.0 ≡ returned (env.stopped end.1)
  unfolding poll_until poll handle_read
  read_outage_keeps_loop e handler hostname block_ms zero w known down = refl
  read_outage_keeps_loop e handler hostname block_ms (suc fuel) w known down =
      elim (Bool-cases (env.stopped w)) [
        | inl off ↦ rw off (ap returned (sym off))
        | inr on ↦
            rw (on, down w, known)
              (read_outage_keeps_loop e handler hostname block_ms fuel _ known down)
      ]
