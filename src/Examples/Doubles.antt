-- ===== src/Examples/Doubles.antt =====
-- Doubles: a Redis that records, a Redis that is down, a fixed clock and a small codec.
use bifrost_platform_plugin.Prelude.{List, [], ◌∷◌, ◌++◌, none, some, pos, false}
use bifrost_platform_plugin.Text.{Text, txt, Fields}
use bifrost_platform_plugin.Float.{fin}
use bifrost_platform_plugin.Effects.{Exn, other, Outcome, returned, raised, Env}
use bifrost_platform_plugin.Json.{object, end, Python}
use bifrost_platform_plugin.Redis.{Redis, StreamReply}
use bifrost_platform_plugin.Operator.Log.{Event, stored, acked}

-- Its world is the log of what it was told.
abbrev pub recorder : Redis (List Event)
recorder = record {
  set = λ key value ttl w. (returned tt, w ++ stored key ∷ []);
  get = λ key w. (returned none, w);
  delete = λ key w. (returned tt, w);
  publish = λ channel message w. (returned tt, w);
  smembers = λ key w. (returned [], w);
  sadd = λ key members w. (returned tt, w);
  srem = λ key members w. (returned tt, w);
  hgetall = λ key w. (returned [], w);
  hget = λ key field w. (returned none, w);
  hset = λ key fields w. (returned tt, w);
  hdel = λ key fields w. (returned tt, w);
  xack = λ stream group entry w. (returned tt, w ++ acked stream group entry ∷ []);
  xgroup_create = λ stream group w. (returned tt, w);
  xreadgroup = λ group consumer names count block w. (returned [], w);
  pipeline = λ commands w. (returned tt, w);
}

abbrev pub refused : Exn
refused = record { kind = other; message = txt "connection refused" }

-- A Redis that refuses SET and HSET, and whose reads give the arguments.
abbrev pub outage :
    Outcome (List Text) → Outcome Fields → Outcome (List StreamReply) → Redis (List Event)
outage members heartbeats reply = record recorder {
  set = λ key value ttl w. (raised refused, w);
  hset = λ key fields w. (raised refused, w);
  smembers = λ key w. (members, w);
  hgetall = λ key w. (heartbeats, w);
  xreadgroup = λ group consumer names count block w. (reply, w);
}

-- The clock stands at 1 s, and the stop event is not set.
abbrev pub still : {W : Type 0} → Env W
still = record {
  now = λ w. fin (pos 1000000);
  clock_ms = λ w. 1000;
  sleep = λ seconds w. w;
  stopped = λ w. false;
}

abbrev pub codec : Python
codec = record {
  loads = λ s. some (object end);
  dumps = λ d. returned (txt "{}");
  dumps_compact = λ d. returned (txt "{}");
  str_of = λ v. txt "v";
  int_of = λ v. returned (pos 1);
  float_of = λ v. returned (fin (pos 0));
  format_0f = λ x. txt "0";
  round_to = λ digits x. x;
}
