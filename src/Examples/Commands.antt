-- ===== src/Examples/Commands.antt =====
-- A ping, an expired ping and a command on the wrong stream.
use bifrost_platform_plugin.Prelude.{
  ◌⊎◌, ◌≡◌, refl, List, [], ◌∷◌, ◌++◌, Option, none, some, true, false, pos, All, if◌then◌else◌,
}
use bifrost_platform_plugin.Text.{
  Text, txt, Fields, text_eq, mem_text, get, get_text, strip, lstrip, is_space, int_of_text,
  is_digit, digits_of,
}
use bifrost_platform_plugin.Effects.{returned, raised}
use bifrost_platform_plugin.Json.{boolean, utf8_length}
use bifrost_platform_plugin.Redis.{Redis, StreamReply}
use bifrost_platform_plugin.RedisKeys.{
  ib_operator_cmd_stream, ib_operator_consumer_group, ib_operator_env_cmd_streams,
}
use bifrost_platform_plugin.Protocol.{
  read_only_ops, CommandMessage, accepted, rejected, parse_stream_fields, finish_parse,
  read_deadline, or_text, payload_of, dumps_result, catch_encode, fits, default_max_bytes,
}
use bifrost_platform_plugin.Protocol.Laws.{IsCommand, parse_stream_fields-IsCommand}
use bifrost_platform_plugin.Operator.{
  Handler, failure, fields_of, answer, process_entry, handle_read, poll_until, is_no_group,
}
use bifrost_platform_plugin.Operator.Log.{Event, stored, Logs}
use bifrost_platform_plugin.Operator.Replies.{
  parsed, HasRoom, Encodes, Answers, IsQuiet, reply_events, handle_read-Logs,
}
use bifrost_platform_plugin.Operator.Confine.{
  env_stream_confines, deadline_decides, served, IsPast, AgreeOnReads,
}
use bifrost_platform_plugin.Operator.Outage.{
  RefusesSet, write_outage_ends_loop, read_outage_keeps_loop,
}
use bifrost_platform_plugin.Examples.Doubles.{recorder, refused, outage, still, codec}

abbrev pong : Handler (List Event)
pong msg w = (returned ((txt "ok", boolean true) ∷ []), w)

abbrev silent : Handler (List Event)
silent msg w = (returned [], w)

abbrev ping_fields : Fields
ping_fields = (txt "req_id", txt "r1") ∷ (txt "op", txt "ping") ∷ []

abbrev ping_entry : Text × Option Fields
ping_entry = (txt "1-0", some ping_fields)

abbrev ping : CommandMessage
ping = record {
  req_id = txt "r1";
  version = txt "1";
  op = txt "ping";
  payload = [];
  caller = txt "unknown";
  deadline_ms = none;
  stream_id = txt "1-0";
}

abbrev late_entry : Text × Option Fields
late_entry = (txt "1-1", some (ping_fields ++ (txt "deadline_ms", txt "9") ∷ []))

abbrev late_ping : CommandMessage
late_ping = record ping { deadline_ms = some (pos 9); stream_id = txt "1-1" }

abbrev blank_entry : Text × Option Fields
blank_entry = (txt "1-2", none)

ping_parsed : parse_stream_fields codec ping_fields (txt "1-0") ≡ accepted ping
unfolding parse_stream_fields finish_parse read_deadline or_text payload_of get_text get strip
    lstrip is_space text_eq mem_text
ping_parsed = refl

late_parsed : parse_stream_fields codec (fields_of late_entry.1) (txt "1-1") ≡ accepted late_ping
unfolding fields_of parse_stream_fields finish_parse read_deadline or_text payload_of get_text get
    strip lstrip is_space text_eq mem_text int_of_text is_digit digits_of
late_parsed = refl

pub codec-Encodes : Encodes codec
codec-Encodes = record {
  dumps_text = λ d. (txt "{}", refl);
  compact_text = λ d. (b'{', b'}' ∷ [], refl);
}

notice_fits :
    dumps_result codec (failure (txt "r1") (txt "result_too_large")) default_max_bytes
    ≡ returned (fits (txt "{}"))
unfolding dumps_result catch_encode utf8_length
notice_fits = refl

ping_room : HasRoom codec (accepted ping)
ping_room = (b'{', b'}' ∷ [], notice_fits)

abbrev one_reply : List StreamReply
one_reply = (ib_operator_cmd_stream, ping_entry ∷ blank_entry ∷ []) ∷ []

recorder-Answers : Answers recorder (λ w. w)
recorder-Answers = record {
  set_logs = λ key value ttl. record { at = λ w. (tt, refl, refl) };
  xack_logs = λ stream group entry. record { at = λ w. (tt, refl, refl) };
}

pong-IsQuiet : IsQuiet (λ (w : List Event). w) pong
pong-IsQuiet msg w = refl

entry_parsed : parsed codec ping_entry ≡ accepted ping
unfolding fields_of
entry_parsed = ping_parsed

blank_parsed : parsed codec blank_entry ≡ rejected (txt "missing_req_id")
unfolding fields_of parse_stream_fields get_text get strip lstrip text_eq
blank_parsed = refl

one_reply_room : All (λ s. All (λ e. HasRoom codec (parsed codec e)) s.1) one_reply
one_reply_room = ((rw entry_parsed ping_room, (rw blank_parsed tt, tt)), tt)

-- A ping and an entry with no fields: one result, two acknowledgements.
handle_read-Logs_example :
    Logs
      (λ w. w)
      (handle_read recorder codec still pong (returned one_reply))
      (reply_events codec one_reply)
handle_read-Logs_example =
    handle_read-Logs recorder codec still (λ w. w) codec-Encodes recorder-Answers pong pong-IsQuiet
      one_reply one_reply_room

parse_stream_fields-IsCommand_example : IsCommand ping_fields (txt "1-0") ping
parse_stream_fields-IsCommand_example =
    parse_stream_fields-IsCommand codec ping_fields (txt "1-0") ping ping_parsed

abbrev env_stream : Text
env_stream = txt "ib:operator:cmd:dev"

env_stream_known : mem_text env_stream ib_operator_env_cmd_streams ≡ true
unfolding mem_text text_eq
env_stream_known = refl

-- Reads are answered as by `pong`; anything else is recorded as if it had been done.
abbrev acting : Handler (List Event)
acting msg w =
    if mem_text msg.op read_only_ops
    then pong msg w
    else (raised refused, w ++ stored (txt "acted") ∷ [])

acting_agrees : AgreeOnReads pong acting
acting_agrees msg w reads = rw reads

env_stream_confines_example :
    process_entry recorder codec still pong env_stream ib_operator_consumer_group ping_entry []
    ≡ process_entry recorder codec still acting env_stream ib_operator_consumer_group ping_entry []
env_stream_confines_example =
    env_stream_confines recorder codec still pong acting env_stream ib_operator_consumer_group
      ping_entry [] acting_agrees env_stream_known

late_deadline :
    read_deadline (get (txt "deadline_ms") (fields_of late_entry.1)) ≡ some (some (pos 9))
unfolding fields_of read_deadline get text_eq strip lstrip is_space int_of_text is_digit digits_of
late_deadline = refl

deadline_decides_example :
    (IsPast (pos 9) 1000
      × (process_entry recorder codec still pong env_stream ib_operator_consumer_group late_entry []
          ≡ process_entry recorder codec still acting env_stream ib_operator_consumer_group
              late_entry [])
      × (answer recorder codec still pong env_stream late_ping []
          ≡ (returned (failure (txt "r1") (txt "deadline_expired")), [])))
    ⊎ ((¬ IsPast (pos 9) 1000)
        × (answer recorder codec still pong env_stream late_ping []
            ≡ served recorder codec still pong env_stream late_ping []))
deadline_decides_example =
    deadline_decides recorder codec still pong acting env_stream ib_operator_consumer_group
      late_entry [] late_ping (pos 9) late_parsed late_deadline

abbrev down : Redis (List Event)
down = outage (returned []) (returned []) (returned one_reply)

down_refuses : RefusesSet down codec still refused
down_refuses key value ttl w = refl

write_outage_ends_loop_example :
    (poll_until down codec still 1 pong (txt "h") 5000 []).0 ≡ raised refused
write_outage_ends_loop_example =
    write_outage_ends_loop down codec still refused pong (txt "h") 5000 0 [] []
      ib_operator_cmd_stream ping_entry (blank_entry ∷ []) [] ping codec-Encodes down_refuses refl
      refl entry_parsed ping_room

abbrev unread : Redis (List Event)
unread = outage (returned []) (returned []) (raised refused)

read_outage_keeps_loop_example :
    (poll_until unread codec still 3 pong (txt "h") 5000 []).0 ≡ returned false
read_outage_keeps_loop_example =
    read_outage_keeps_loop unread codec still refused pong (txt "h") 5000 3 []
      (unfold is_no_group in refl) (λ v. refl)
