-- ===== src/Operator/Reach.antt =====
-- What the handling of an entry leaves as it is, when the handler does and Redis is apart.
use bifrost_platform_plugin.Prelude.{ℕ, Bool, ◌≡◌, refl, true, false, List, [], ◌∷◌, not, Option}
use bifrost_platform_plugin.Text.{Text, Fields}
use bifrost_platform_plugin.Effects.{pure, attempt, lift, Env}
use bifrost_platform_plugin.Effects.Keep.{
  Preserves, Preserves-bind, Preserves-branch, Preserves-if, Preserves-for_each,
}
use bifrost_platform_plugin.Json.{Dict, Python}
use bifrost_platform_plugin.Redis.{Redis}
use bifrost_platform_plugin.RedisKeys.{ib_operator_consumer_group}
use bifrost_platform_plugin.Protocol.{
  CommandMessage, is_expired, Dumped, fits, failed, dumps_result, default_max_bytes, Parsed,
  accepted, rejected, parse_stream_fields,
}
use bifrost_platform_plugin.Writer.{write_operator_result}
use bifrost_platform_plugin.Operator.{
  Handler, op_allowed_on_stream, failure, envelope_of, fields_of, write_if, write_again,
  write_dumped, respond, answer_at, answer, serve_parsed, process_entry, process_stream,
}

of_negation : (b : Bool) → not b ≡ false → b ≡ true
of_negation true e = refl
of_negation false e = cc

-- What the loop writes to Redis for an entry does not touch the property.
pub record IsApart {W : Type 0} (P : W → Type 0) (rds : Redis W) : Type 0 where
  pub sets : (key value : Text) (ex : Option _) → Preserves P (rds.set key value ex)
  pub acks : (stream group entry : Text) → Preserves P (rds.xack stream group entry)

module _ {W : Type 0} (P : W → Type 0) (rds : Redis W) (py : Python) (env : Env W)
    (apart : IsApart P rds) where
  write_result-Preserves :
      (req_id : Text) (envelope : Dict)
      → Preserves P (write_operator_result rds py env req_id envelope)
  unfolding write_operator_result
  write_result-Preserves req_id envelope =
      Preserves-bind P (lift (py.dumps envelope)) _ (λ w h. h) (λ raw. apart.sets _ raw _)

  write_if-Preserves :
      (req_id : Text) (envelope : Dict) (raw : Text)
      → Preserves P (write_if rds py env req_id envelope raw)
  unfolding write_if
  write_if-Preserves req_id envelope [] w h = h
  write_if-Preserves req_id envelope (c ∷ raw) w h = write_result-Preserves req_id envelope w h

  write_dumped-Preserves :
      (req_id : Text) (envelope : Dict) (d : Dumped)
      → Preserves P (write_dumped rds py env req_id envelope d)
  unfolding write_dumped write_again
  write_dumped-Preserves req_id envelope (fits raw) = write_if-Preserves req_id envelope raw
  write_dumped-Preserves req_id envelope (failed message) =
      Preserves-bind P (lift (dumps_result py (failure req_id message) default_max_bytes)) _
        (λ w h. h) (again-Preserves (failure req_id message))
    where
      again-Preserves : (e : Dict) (d : Dumped) → Preserves P (write_again rds py env req_id e d)
      again-Preserves e (fits raw) = write_if-Preserves req_id e raw
      again-Preserves e (failed m) = λ w h. h

  respond-Preserves :
      (req_id : Text) (envelope : Dict) → Preserves P (respond rds py env req_id envelope)
  unfolding respond
  respond-Preserves req_id envelope =
      Preserves-bind P (lift (dumps_result py envelope default_max_bytes)) _ (λ w h. h)
        (write_dumped-Preserves req_id envelope)

  module _ (handler : Handler W) (stream : Text)
      (keeps : (msg : CommandMessage)
        → op_allowed_on_stream msg.op stream ≡ true
        → Preserves P (handler msg)) where
    answer_at-Preserves :
        (msg : CommandMessage) (now : ℕ) → Preserves P (answer_at rds py env handler stream msg now)
    unfolding answer_at
    answer_at-Preserves msg now =
        Preserves-if P (is_expired now msg) _ _ (λ w h. h)
          (Preserves-branch P (not (op_allowed_on_stream msg.op stream)) _ _ (λ e w h. h)
            (λ e.
              Preserves-bind P (attempt (handler msg))
                (λ reply. pure (envelope_of msg.req_id reply))
                (keeps msg (of_negation (op_allowed_on_stream msg.op stream) e)) (λ r w h. h)))

    answer-Preserves : (msg : CommandMessage) → Preserves P (answer rds py env handler stream msg)
    unfolding answer
    answer-Preserves msg w h = answer_at-Preserves msg (env.clock_ms w) w h

    serve_parsed-Preserves : (p : Parsed) → Preserves P (serve_parsed rds py env handler stream p)
    unfolding serve_parsed
    serve_parsed-Preserves (rejected message) = λ w h. h
    serve_parsed-Preserves (accepted msg) =
        Preserves-bind P (answer rds py env handler stream msg) _ (answer-Preserves msg)
          (respond-Preserves msg.req_id)

    process_entry-Preserves :
        (group : Text) (entry : Text × Option Fields)
        → Preserves P (process_entry rds py env handler stream group entry)
    unfolding process_entry
    process_entry-Preserves group (id, fields) =
        Preserves-bind P
          (serve_parsed rds py env handler stream (parse_stream_fields py (fields_of fields) id)) _
          (serve_parsed-Preserves (parse_stream_fields py (fields_of fields) id))
          (λ u. apart.acks stream group id)

    pub process_stream-Preserves :
        (entries : List (Text × Option Fields))
        → Preserves P (process_stream rds py env handler (stream, entries))
    unfolding process_stream
    process_stream-Preserves entries =
        Preserves-for_each P (process_entry rds py env handler stream ib_operator_consumer_group)
          entries (process_entry-Preserves ib_operator_consumer_group)
