-- ===== src/Operator/Confine.antt =====
-- What a stream and a deadline let through to the handler.
use bifrost_platform_plugin.Protocol.Laws.{parse-deadline}
use bifrost_platform_plugin.Prelude.{
  some, ℤ, pos, negsuc, ◌<◌, ◌⊎◌, ◌++◌, false, ltb, arith, if◌then◌else◌, ℕ, ◌≡◌, refl, ap, inl,
  inr, true, not, Option, Bool-cases,
}
use bifrost_platform_plugin.Text.{Text, txt, Fields, mem_text, get}
use bifrost_platform_plugin.Effects.{Outcome, returned, continue_with, Env}
use bifrost_platform_plugin.Json.{Dict, Python}
use bifrost_platform_plugin.Redis.{Redis}
use bifrost_platform_plugin.RedisKeys.{ib_operator_env_cmd_streams}
use bifrost_platform_plugin.Protocol.{
  all_ops, read_only_ops, prod_only_ops, CommandMessage, is_expired, Parsed, accepted, rejected,
  parse_stream_fields, read_deadline,
}
use bifrost_platform_plugin.Protocol.Laws.{op_one_allowlist}
use bifrost_platform_plugin.Operator.{
  Handler, op_allowed_on_stream, failure, envelope_of, fields_of, respond, answer_at, answer,
  serve_parsed, process_entry,
}

-- On an environment's stream the operations of the production stream are refused, and no others:
-- an operation of the protocol is allowed exactly when it is not one of those.
pub env_stream_allows :
    (op stream : Text)
    → mem_text stream ib_operator_env_cmd_streams ≡ true
    → mem_text op all_ops ≡ true
    → op_allowed_on_stream op stream ≡ not (mem_text op prod_only_ops)
unfolding op_allowed_on_stream
env_stream_allows op stream on_env known = rw on_env (op_one_allowlist op known)

-- The two handlers do the same with every message that may come on an environment's stream.
abbrev pub AgreeOnReads : {W : Type 0} → Handler W → Handler W → Type 0
AgreeOnReads h k =
    (msg : CommandMessage) (w : _) → mem_text msg.op read_only_ops ≡ true → h msg w ≡ k msg w

-- The deadline is before the clock's reading, in milliseconds.
abbrev pub IsPast : ℤ → ℕ → Type 0
IsPast (pos n) now = n < now
IsPast (negsuc n) now = Unit

IsPast-cases :
    (d : ℤ) (now : ℕ) (msg : CommandMessage)
    → msg.deadline_ms ≡ some d
    → (IsPast d now × (is_expired now msg ≡ true))
      ⊎ ((¬ IsPast d now) × (is_expired now msg ≡ false))
unfolding is_expired
IsPast-cases (pos n) now msg e = elim (Bool-cases (ltb n now)) [
  | inl late ↦ inl (ground arith, rw e (ground arith))
  | inr early ↦ inr (λ past. ground arith, rw e (ground arith))
]
IsPast-cases (negsuc n) now msg e = inl (tt, rw e (ground arith))

module _ {W : Type 0} (rds : Redis W) (py : Python) (env : Env W) where
  answer_at-agree :
      (h k : Handler W) (stream : Text) (msg : CommandMessage) (now : ℕ) (w : W)
      → AgreeOnReads h k
      → mem_text stream ib_operator_env_cmd_streams ≡ true
      → answer_at rds py env h stream msg now w ≡ answer_at rds py env k stream msg now w
  unfolding answer_at op_allowed_on_stream
  answer_at-agree h k stream msg now w same on_env = elim (Bool-cases (is_expired now msg)) [
    | inl late ↦ rw late
    | inr early ↦ elim (Bool-cases (mem_text msg.op read_only_ops)) [
      | inl reads ↦ rw (early, on_env, reads, same msg w reads)
      | inr other ↦ rw (early, on_env, other)
    ]
  ]

  serve_parsed-agree :
      (h k : Handler W) (stream : Text) (p : Parsed) (w : W)
      → AgreeOnReads h k
      → mem_text stream ib_operator_env_cmd_streams ≡ true
      → serve_parsed rds py env h stream p w ≡ serve_parsed rds py env k stream p w
  unfolding serve_parsed answer
  serve_parsed-agree h k stream (rejected message) w same on_env = refl
  serve_parsed-agree h k stream (accepted msg) w same on_env =
      ap (λ r. continue_with (respond rds py env msg.req_id) r.0 r.1)
        (answer_at-agree h k stream msg (env.clock_ms w) w same on_env)

  -- An entry of an environment's stream never reaches what the handler does for the other
  -- operations: two handlers that agree on the read operations leave the same outcome and world.
  pub env_stream_confines :
      (h k : Handler W) (stream group : Text) (entry : Text × Option Fields) (w : W)
      → AgreeOnReads h k
      → mem_text stream ib_operator_env_cmd_streams ≡ true
      → process_entry rds py env h stream group entry w
        ≡ process_entry rds py env k stream group entry w
  unfolding process_entry
  env_stream_confines h k stream group (id, fields) w same on_env =
      ap (λ r. continue_with (λ _. rds.xack stream group id) r.0 r.1)
        (serve_parsed-agree h k stream (parse_stream_fields py (fields_of fields) id) w same on_env)

  -- What a command gets that is in time: the handler's reply, where its stream allows it.
  abbrev pub served : Handler W → Text → CommandMessage → W → Outcome Dict × W
  served h stream msg w =
      if op_allowed_on_stream msg.op stream
      then (returned (envelope_of msg.req_id (h msg w).0), (h msg w).1)
      else (returned (failure msg.req_id (txt "op_not_allowed_on_stream:" ++ msg.op)), w)

  answer-late :
      (h : Handler W) (stream : Text) (msg : CommandMessage) (w : W)
      → is_expired (env.clock_ms w) msg ≡ true
      → answer rds py env h stream msg w
        ≡ (returned (failure msg.req_id (txt "deadline_expired")), w)
  unfolding answer answer_at
  answer-late h stream msg w late = rw late refl

  answer-timely :
      (h : Handler W) (stream : Text) (msg : CommandMessage) (w : W)
      → is_expired (env.clock_ms w) msg ≡ false
      → answer rds py env h stream msg w ≡ served h stream msg w
  unfolding answer answer_at
  answer-timely h stream msg w early = elim (Bool-cases (op_allowed_on_stream msg.op stream)) [
    | inl allowed ↦ rw (early, allowed) refl
    | inr refused ↦ rw (early, refused) refl
  ]

  process_entry-late :
      (h k : Handler W) (stream group : Text) (entry : Text × Option Fields) (w : W)
      (msg : CommandMessage)
      → parse_stream_fields py (fields_of entry.1) entry.0 ≡ accepted msg
      → is_expired (env.clock_ms w) msg ≡ true
      → process_entry rds py env h stream group entry w
        ≡ process_entry rds py env k stream group entry w
  unfolding process_entry serve_parsed
  process_entry-late h k stream group (id, fields) w msg ok late =
      rw (ok, answer-late h stream msg w late, answer-late k stream msg w late) refl

  -- A command is answered with `deadline_expired`, on every stream and for every operation, exactly
  -- if the number in its field deadline_ms is before the clock. Then the handler is not called: any
  -- two handlers leave the same outcome. Otherwise it gets the handler's reply where its stream
  -- allows it.
  pub deadline_decides :
      (h k : Handler W) (stream group : Text) (entry : Text × Option Fields) (w : W)
      (msg : CommandMessage) (d : ℤ)
      → parse_stream_fields py (fields_of entry.1) entry.0 ≡ accepted msg
      → read_deadline (get (txt "deadline_ms") (fields_of entry.1)) ≡ some (some d)
      → (IsPast d (env.clock_ms w)
          × (process_entry rds py env h stream group entry w
              ≡ process_entry rds py env k stream group entry w)
          × (answer rds py env h stream msg w
              ≡ (returned (failure msg.req_id (txt "deadline_expired")), w)))
        ⊎ ((¬ IsPast d (env.clock_ms w))
            × (answer rds py env h stream msg w ≡ served h stream msg w))
  deadline_decides h k stream group entry w msg d ok read =
      let kept = parse-deadline py (fields_of entry.1) entry.0 msg d ok read in
      elim (IsPast-cases d (env.clock_ms w) msg kept) [
        | inl (past, late) ↦ inl (
          past,
          process_entry-late h k stream group entry w msg ok late,
          answer-late h stream msg w late,
        )
        | inr (future, early) ↦ inr (future, answer-timely h stream msg w early)
      ]
