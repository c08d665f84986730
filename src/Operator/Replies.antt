-- ===== src/Operator/Replies.antt =====
-- What the operator loop does with each entry, for any handler.
use bifrost_platform_plugin.Prelude.{
  ℕ, ◌≡◌, refl, sym, ◌∙◌, ◌⊎◌, inl, inr, not, List, [], ◌∷◌, ◌++◌, Option, Bool-cases, All,
  append-nil, ltb,
}
use bifrost_platform_plugin.Text.{Text, txt, Fields}
use bifrost_platform_plugin.Effects.{returned, attempt, gets, Env}
use bifrost_platform_plugin.Json.{Dict, Python, utf8_length}
use bifrost_platform_plugin.Redis.{Redis, StreamReply}
use bifrost_platform_plugin.RedisKeys.{ib_operator_consumer_group, ib_operator_result_prefix}
use bifrost_platform_plugin.Protocol.{
  CommandMessage, is_expired, fits, failed, catch_encode, dumps_result, default_max_bytes, Parsed,
  accepted, rejected, parse_stream_fields,
}
use bifrost_platform_plugin.Writer.{write_operator_result}
use bifrost_platform_plugin.Operator.{
  Handler, op_allowed_on_stream, failure, envelope_of, fields_of, write_if, write_again,
  write_dumped, respond, answer_at, answer, serve_parsed, process_entry, process_stream,
  handle_read,
}
use bifrost_platform_plugin.Operator.Log.{
  Event, stored, acked, Logs, Logs-pure, Logs-gets, Logs-lift_bind, Logs-bind, Logs-if,
  Logs-for_each, flat_map,
}

-- The message that one entry of a stream parses to.
abbrev pub parsed : Python → Text × Option Fields → Parsed
parsed py entry = parse_stream_fields py (fields_of entry.1) entry.0

-- The envelope that replaces a result which is too large does fit.
abbrev pub HasRoom : Python → Parsed → Type 0
HasRoom py (rejected message) = Unit
HasRoom py (accepted msg) =
    (c : ℕ) × (s : Text) × (dumps_result py (failure msg.req_id (txt "result_too_large"))
        default_max_bytes
      ≡ returned (fits (c ∷ s)))

abbrev pub served_events : Parsed → List Event
served_events (rejected message) = []
served_events (accepted msg) = stored (ib_operator_result_prefix ++ msg.req_id) ∷ []

-- One result for an entry that is a command, then one acknowledgement.
abbrev pub entry_events : Python → Text → Text × Option Fields → List Event
entry_events py stream entry =
    served_events (parsed py entry) ++ acked stream ib_operator_consumer_group entry.0 ∷ []

abbrev pub reply_events : Python → List StreamReply → List Event
reply_events py = flat_map (λ s. flat_map (entry_events py s.0) s.1)

-- Every text that JSON makes is a text of at least one character, and no conversion fails.
pub record Encodes (py : Python) : Type 0 where
  pub dumps_text : (d : Dict) → (s : Text) × (py.dumps d ≡ returned s)
  pub compact_text : (d : Dict) → (c : ℕ) × (s : Text) × (py.dumps_compact d ≡ returned (c ∷ s))

-- Redis answers each SET and XACK, and the log shows them.
pub record Answers {W : Type 0} (rds : Redis W) (log : W → List Event) : Type 0 where
  pub set_logs :
      (key value : Text) (ttl : Option ℕ) → Logs log (rds.set key value ttl) (stored key ∷ [])
  pub xack_logs :
      (stream group entry : Text)
      → Logs log (rds.xack stream group entry) (acked stream group entry ∷ [])

-- The handler may do anything else, and may raise.
abbrev pub IsQuiet : {W : Type 0} → (W → List Event) → Handler W → Type 0
IsQuiet log handler = (msg : CommandMessage) (w : _) → log (handler msg w).1 ≡ log w

pub dumps_cases :
    (py : Python) (d : Dict)
    → Encodes py
    → ((c : ℕ) × (s : Text) × (dumps_result py d default_max_bytes ≡ returned (fits (c ∷ s))))
      ⊎ (dumps_result py d default_max_bytes ≡ returned (failed (txt "result_too_large")))
unfolding dumps_result catch_encode
dumps_cases py d enc =
    let (c, s, e) = enc.compact_text d in
    elim (Bool-cases (ltb default_max_bytes (utf8_length (c ∷ s)))) [
      | inl big ↦ inr (rw (e, big) refl)
      | inr small ↦ inl (c, s, rw (e, small) refl)
    ]

module _ {W : Type 0} (rds : Redis W) (py : Python) (env : Env W) (log : W → List Event) where
  module _ (enc : Encodes py) (ans : Answers rds log) where
    write_operator_result-Logs :
        (req_id : Text) (envelope : Dict)
        → Logs log
            (write_operator_result rds py env req_id envelope)
            (stored (ib_operator_result_prefix ++ req_id) ∷ [])
    unfolding write_operator_result
    write_operator_result-Logs req_id envelope =
        let (s, e) = enc.dumps_text envelope in
        Logs-lift_bind log (py.dumps envelope) _ _ e
          (ans.set_logs (ib_operator_result_prefix ++ req_id) s _)

    respond-Logs :
        (msg : CommandMessage) (envelope : Dict)
        → HasRoom py (accepted msg)
        → Logs log (respond rds py env msg.req_id envelope) (served_events (accepted msg))
    unfolding respond write_dumped write_if write_again
    respond-Logs msg envelope (c, s, room) = elim (dumps_cases py envelope enc) [
      | inl (c', s', e) ↦
          Logs-lift_bind log (dumps_result py envelope default_max_bytes) _ _ e
            (write_operator_result-Logs msg.req_id envelope)
      | inr e ↦ Logs-lift_bind log (dumps_result py envelope default_max_bytes) _ _ e (
          Logs-lift_bind log
            (dumps_result py (failure msg.req_id (txt "result_too_large")) default_max_bytes) _ _
            room
            (write_operator_result-Logs msg.req_id (failure msg.req_id (txt "result_too_large"))))
    ]

    module _ (handler : Handler W) (quiet : IsQuiet log handler) where
      answer-Logs :
          (stream : Text) (msg : CommandMessage)
          → Logs log (answer rds py env handler stream msg) []
      unfolding answer answer_at
      answer-Logs stream msg =
          Logs-bind log (gets env.clock_ms) _ [] [] (Logs-gets log env.clock_ms) λ now.
            Logs-if log (is_expired now msg) _ _ []
              (Logs-pure log (failure msg.req_id (txt "deadline_expired")))
              (Logs-if log (not (op_allowed_on_stream msg.op stream)) _ _ []
                (Logs-pure log (failure msg.req_id (txt "op_not_allowed_on_stream:" ++ msg.op)))
                (Logs-bind log (attempt (handler msg)) _ [] []
                  (record {
                    at = λ w. ((handler msg w).0, refl, quiet msg w ∙ sym (append-nil (log w)));
                  })
                  (λ r. Logs-pure log (envelope_of msg.req_id r))))

      serve_parsed-Logs :
          (stream : Text) (p : Parsed)
          → HasRoom py p
          → Logs log (serve_parsed rds py env handler stream p) (served_events p)
      unfolding serve_parsed
      serve_parsed-Logs stream (rejected message) room = Logs-pure log tt
      serve_parsed-Logs stream (accepted msg) room =
          Logs-bind log (answer rds py env handler stream msg) (respond rds py env msg.req_id) [] _
            (answer-Logs stream msg) (λ envelope. respond-Logs msg envelope room)

      pub process_entry-Logs :
          (stream : Text) (entry : Text × Option Fields)
          → HasRoom py (parsed py entry)
          → Logs log
              (process_entry rds py env handler stream ib_operator_consumer_group entry)
              (entry_events py stream entry)
      unfolding process_entry
      process_entry-Logs stream entry room =
          Logs-bind log (serve_parsed rds py env handler stream (parsed py entry)) _ _ _
            (serve_parsed-Logs stream (parsed py entry) room)
            (λ _. ans.xack_logs stream ib_operator_consumer_group entry.0)

      AllRoom-Logs :
          (stream : Text) (entries : List (Text × Option Fields))
          → All (λ e. HasRoom py (parsed py e)) entries
          → All
              (λ e.
                Logs log
                  (process_entry rds py env handler stream ib_operator_consumer_group e)
                  (entry_events py stream e))
              entries
      AllRoom-Logs stream [] room = tt
      AllRoom-Logs stream (e ∷ es) room =
          (process_entry-Logs stream e room.0, AllRoom-Logs stream es room.1)

      streams-Logs :
          (reply : List StreamReply)
          → All (λ s. All (λ e. HasRoom py (parsed py e)) s.1) reply
          → All
              (λ s.
                Logs log (process_stream rds py env handler s) (flat_map (entry_events py s.0) s.1))
              reply
      unfolding process_stream
      streams-Logs [] room = tt
      streams-Logs ((stream, entries) ∷ reply) room = (
        Logs-for_each log (process_entry rds py env handler stream ib_operator_consumer_group)
            (entry_events py stream) entries (AllRoom-Logs stream entries room.0),
        streams-Logs reply room.1,
      )

      -- A reply of XREADGROUP is served to its end, whatever the handler does short of storing or
      -- acknowledging itself, if JSON and Redis answer and each too-large notice fits: the round
      -- returns, and the log has, entry by entry in the order of the reply, the result key of
      -- the entry if it is a command and then its acknowledgement on its own stream.
      pub handle_read-Logs :
          (reply : List StreamReply)
          → All (λ s. All (λ e. HasRoom py (parsed py e)) s.1) reply
          → Logs log (handle_read rds py env handler (returned reply)) (reply_events py reply)
      unfolding handle_read
      handle_read-Logs reply room =
          Logs-for_each log (process_stream rds py env handler)
            (λ s. flat_map (entry_events py s.0) s.1) reply (streams-Logs reply room)
