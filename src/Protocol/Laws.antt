-- ===== src/Protocol/Laws.antt =====
-- What an accepted command is, and how the operations divide between the streams.
use bifrost_platform_plugin.Prelude.{
  ◌≡◌, refl, All, ℤ, true, false, not, List, [], ◌∷◌, Option, some, arith, Bool-cases, inl, inr,
  ◌∙◌, ap,
}
use bifrost_platform_plugin.Text.{Text, txt, Fields, strip, text_eq, mem_text, get, get_text}
use bifrost_platform_plugin.Text.Laws.{text_eq→eq, mem_text-append}
use bifrost_platform_plugin.Json.{Python, Json}
use bifrost_platform_plugin.Protocol.{
  protocol_version, all_ops, read_only_ops, prod_only_ops, CommandMessage, accepted, finish_parse,
  parse_stream_fields, or_text, read_deadline,
}

-- What the operator loop may rely on in a parsed command.
pub record IsCommand (fields : Fields) (stream_id : Text) (msg : CommandMessage) : Type 0 where
  pub req_id_given : text_eq msg.req_id [] ≡ false
  pub req_id_read : msg.req_id ≡ strip (get_text (txt "req_id") fields)
  pub op_read : msg.op ≡ strip (get_text (txt "op") fields)
  pub op_known : mem_text msg.op all_ops ≡ true
  pub version_known : msg.version ≡ protocol_version
  pub stream_id_kept : msg.stream_id ≡ stream_id

finish_parse-accepted :
    (req_id ver op caller stream_id : Text) (d : Option (Option ℤ)) (p : Option Json)
    (msg : CommandMessage)
    → finish_parse req_id ver op caller d stream_id p ≡ accepted msg
    → (msg.req_id ≡ req_id) × (msg.op ≡ op) × (msg.version ≡ ver) × (msg.stream_id ≡ stream_id)
unfolding finish_parse
finish_parse-accepted req_id ver op caller stream_id d p msg h = ground arith

-- A command that is accepted has a request id and a known operation, both stripped, version 1 and
-- the id of its entry.
pub parse_stream_fields-IsCommand :
    (py : Python) (fields : Fields) (stream_id : Text) (msg : CommandMessage)
    → parse_stream_fields py fields stream_id ≡ accepted msg
    → IsCommand fields stream_id msg
unfolding parse_stream_fields
parse_stream_fields-IsCommand py fields stream_id msg h =
    let ver =
      or_text (strip (or_text (get_text (txt "v") fields) protocol_version)) protocol_version in
    ground (
      arith,
      text_eq→eq ver protocol_version,
      finish_parse-accepted (strip (get_text (txt "req_id") fields)) ver
          (strip (get_text (txt "op") fields))
          (or_text (strip (get_text (txt "caller") fields)) (txt "unknown")) stream_id
          (read_deadline (get (txt "deadline_ms") fields))
          (py.loads (or_text (get_text (txt "payload") fields) (txt "{}"))) msg,
    )

finish_parse-deadline :
    (req_id ver op caller stream_id : Text) (d : ℤ) (p : Option Json) (msg : CommandMessage)
    → finish_parse req_id ver op caller (some (some d)) stream_id p ≡ accepted msg
    → msg.deadline_ms ≡ some d
unfolding finish_parse
finish_parse-deadline req_id ver op caller stream_id d p msg h = ground arith

-- An accepted command carries the number of its field deadline_ms.
pub parse-deadline :
    (py : Python) (fields : Fields) (stream_id : Text) (msg : CommandMessage) (d : ℤ)
    → parse_stream_fields py fields stream_id ≡ accepted msg
    → read_deadline (get (txt "deadline_ms") fields) ≡ some (some d)
    → msg.deadline_ms ≡ some d
unfolding parse_stream_fields
parse-deadline py fields stream_id msg d h read =
    let ver =
      or_text (strip (or_text (get_text (txt "v") fields) protocol_version)) protocol_version in
    let given = rw read at h in
    ground (
      arith,
      finish_parse-deadline (strip (get_text (txt "req_id") fields)) ver
          (strip (get_text (txt "op") fields))
          (or_text (strip (get_text (txt "caller") fields)) (txt "unknown")) stream_id d
          (py.loads (or_text (get_text (txt "payload") fields) (txt "{}"))) msg,
    )

disjoint :
    (op : Text) (xs ys : List Text)
    → All (λ x. mem_text x ys ≡ false) xs
    → mem_text op xs ≡ true
    → mem_text op ys ≡ false
unfolding mem_text
disjoint op [] ys h m = cc
disjoint op (x ∷ xs) ys h m = elim (Bool-cases (text_eq op x)) [
  | inl e ↦ ap (λ t. mem_text t ys) (text_eq→eq op x e) ∙ h.0
  | inr e ↦ disjoint op xs ys h.1 (rw e at m)
]

-- Every operation of the protocol is on exactly one of the two lists: a read operation for all
-- streams, or one for the production stream alone.
pub op_one_allowlist :
    (op : Text)
    → mem_text op all_ops ≡ true
    → mem_text op read_only_ops ≡ not (mem_text op prod_only_ops)
op_one_allowlist op h = elim (Bool-cases (mem_text op read_only_ops)) [
  | inl r ↦ rw (r, disjoint op read_only_ops prod_only_ops read_not_prod r)
  | inr r ↦ ground (arith, mem_text-append op read_only_ops prod_only_ops)
]
  where
    read_not_prod : All (λ x. mem_text x prod_only_ops ≡ false) read_only_ops
    read_not_prod =
        unfold mem_text text_eq in (refl, (refl, (refl, (refl, (refl, (refl, (refl, tt)))))))
