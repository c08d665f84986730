-- ===== src/Live/Serve.antt =====
-- The operator's loop with the gateway as its handler: they share one redis client, one clock and
-- the process.
use bifrost_platform_plugin.Prelude.{◌≡◌, true, map, List, Option}
use bifrost_platform_plugin.Text.{Text, Fields, mem_text}
use bifrost_platform_plugin.Float.{Float}
use bifrost_platform_plugin.Effects.{Env}
use bifrost_platform_plugin.Json.{Python}
use bifrost_platform_plugin.Redis.{Redis}
use bifrost_platform_plugin.RedisKeys.{ib_operator_env_cmd_streams}
use bifrost_platform_plugin.Protocol.{read_only_ops}
use bifrost_platform_plugin.Operator.{process_stream, op_allowed_on_stream}
use bifrost_platform_plugin.Effects.Keep.{Keeps-of_Preserves, Preserves-of_Keeps}
use bifrost_platform_plugin.Operator.Reach.{IsApart, process_stream-Preserves}
use bifrost_platform_plugin.Connection.{Tws}
use bifrost_platform_plugin.Ib.{Ib}
use bifrost_platform_plugin.Live.State.{Live, Gate, on_redis}
use bifrost_platform_plugin.Live.OptCache.{OptSettings, Waits}
use bifrost_platform_plugin.Live.Commands.{handle_command}
use bifrost_platform_plugin.Live.Reads.{sessions, session_part, read_command-Keeps}

module _ {W : Type 0} where
  -- The redis client beside the gateway's own state.
  unfoldable pub shared_redis : Redis W → Redis (Gate W)
  unfolding on_redis
  shared_redis rds = record {
    set = λ key value ex. on_redis (rds.set key value ex);
    get = λ key. on_redis (rds.get key);
    delete = λ key. on_redis (rds.delete key);
    publish = λ channel message. on_redis (rds.publish channel message);
    smembers = λ key. on_redis (rds.smembers key);
    sadd = λ key members. on_redis (rds.sadd key members);
    srem = λ key members. on_redis (rds.srem key members);
    hgetall = λ key. on_redis (rds.hgetall key);
    hget = λ key field. on_redis (rds.hget key field);
    hset = λ key fields. on_redis (rds.hset key fields);
    hdel = λ key fields. on_redis (rds.hdel key fields);
    xack = λ stream group entry. on_redis (rds.xack stream group entry);
    xgroup_create = λ stream group. on_redis (rds.xgroup_create stream group);
    xreadgroup = λ group consumer names count block.
        on_redis (rds.xreadgroup group consumer names count block);
    pipeline = λ commands. on_redis (rds.pipeline commands);
  }

  unfoldable pub shared_env : Env W → Env (Gate W)
  shared_env env = record {
    now = λ g. env.now g.1;
    clock_ms = λ g. env.clock_ms g.1;
    sleep = λ seconds g. (g.0, env.sleep seconds g.1);
    stopped = λ g. env.stopped g.1;
  }

  pub shared-IsApart : (P : Live → Type 0) (rds : Redis W) → IsApart (λ g. P g.0) (shared_redis rds)
  unfolding shared_redis on_redis
  shared-IsApart P rds = record { sets = λ key value ex g h. h; acks = λ stream group entry g h. h }

-- On an environment's stream only the read operations are allowed.
allowed_on_env :
    (op stream : Text)
    → mem_text stream ib_operator_env_cmd_streams ≡ true
    → op_allowed_on_stream op stream ≡ true
    → mem_text op read_only_ops ≡ true
unfolding op_allowed_on_stream
allowed_on_env op stream on_env allowed = rw on_env at allowed

module _ {W : Type 0} (rds : Redis W) (py : Python) (env : Env W) (tws : Tws W) (api : Ib W)
    (waits : Waits W) (strftime : Float → Text) (read_float : Text → Option Float)
    (settings : OptSettings) where
  -- Whatever arrives on an environment's stream, valid or not, and whatever Redis and TWS answer,
  -- when the gateway has handled all of it every slot is as it was, in its state, session, client
  -- id, maintenance mark and last error: only the times of the last messages may differ. So an
  -- environment can never disconnect or reconnect the sessions that all environments share.
  pub env_stream_keeps_sessions :
      (stream : Text) (entries : List (Text × Option Fields)) (live : Live) (w : W)
      → mem_text stream ib_operator_env_cmd_streams ≡ true
      → sessions
          (process_stream
            (shared_redis rds)
            py
            (shared_env env)
            (handle_command rds py env tws api waits strftime read_float settings)
            (stream, entries)
            (live, w)).1
        ≡ sessions (live, w)
  env_stream_keeps_sessions stream entries live w on_env =
      let handler = handle_command rds py env tws api waits strftime read_float settings in
      Keeps-of_Preserves sessions
        (process_stream (shared_redis rds) py (shared_env env) handler (stream, entries))
        (λ c.
          process_stream-Preserves (λ g. sessions g ≡ c) (shared_redis rds) py (shared_env env)
            (shared-IsApart (λ l. map session_part l.slots ≡ c) rds) handler stream
            (λ msg allowed. Preserves-of_Keeps sessions (handler msg) c (
              read_command-Keeps rds py env tws api waits strftime read_float settings msg
                (allowed_on_env msg.op stream on_env allowed)))
            entries)
        (live, w)
