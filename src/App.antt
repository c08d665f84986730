-- ===== src/App.antt =====
-- src/bifrost_plugin/ib_gateway/app.py: the client of Redis and the engine that run_gateway starts.
pub mod Answers
use bifrost_platform_plugin.Prelude.{Bool, true, Option, none, some, if◌then◌else◌, [], ◌∷◌, ℤ}
use bifrost_platform_plugin.Text.{Text, txt, text_eq}
use bifrost_platform_plugin.Float.{Float}
use bifrost_platform_plugin.Effects.{Io, Env}
use bifrost_platform_plugin.Json.{Json, null, Dict, or_json, Python}
use bifrost_platform_plugin.Redis.{Redis}
use bifrost_platform_plugin.Protocol.{CommandMessage}
use bifrost_platform_plugin.Writer.{Writer}
use bifrost_platform_plugin.Connection.{Tws}
use bifrost_platform_plugin.Ib.{Ib}
use bifrost_platform_plugin.Live.OptCache.{Waits}
use bifrost_platform_plugin.Live.Commands.{handle_command as live_command}
use bifrost_platform_plugin.Live.Market.{Market}
use bifrost_platform_plugin.Live.Turns.{new_live, with_live}
use bifrost_platform_plugin.Mock.State.{MockGateway, MockSettings, Random, new_mock}
use bifrost_platform_plugin.Mock.Commands.{handle_command as mock_command}
use bifrost_platform_plugin.Startup.Load.{GatewaySettings, stream_settings_of, opt_settings_of}

-- The keyword arguments of redis.Redis.
pub record RedisArgs : Type 0 where
  pub host : Text
  pub port : ℤ
  pub db : ℤ
  pub username : Json
  pub password : Option Text
  pub decode_responses : Bool

-- s or None
unfoldable pub text_or_none : Text → Option Text
text_or_none [] = none
text_or_none (c ∷ s) = some (c ∷ s)

unfoldable pub make_redis : GatewaySettings → RedisArgs
make_redis s = record {
  host = s.redis_host;
  port = s.redis_port;
  db = s.redis_db;
  username = or_json s.redis_username null;
  password = text_or_none s.redis_password;
  decode_responses = true;
}

-- MockGateway or LiveGateway
pub data GatewayEngine : Type 0 where
  mock_engine : MockGateway → GatewayEngine
  live_engine : Market → GatewayEngine

-- The engine of the settings' mode, with the writer, at the time `now`.
unfoldable pub start_engine : Float → GatewaySettings → Writer → GatewayEngine
start_engine now s wr =
    if text_eq s.mode (txt "mock")
    then mock_engine (new_mock wr)
    else live_engine (new_live now s.slots wr)

unfoldable pub mock_settings_of : GatewaySettings → MockSettings
mock_settings_of s = record {
  slots = s.slots;
  streams = stream_settings_of s;
  opt = opt_settings_of s;
}

module _ {W : Type 0} (rds : Redis W) (py : Python) (env : Env W) (tws : Tws W) (api : Ib W)
    (random : Random W) (waits : Waits W) (strftime : Float → Text)
    (read_float : Text → Option Float) (settings : GatewaySettings) where
  -- engine.handle_command, with the engine's state after it
  unfoldable pub engine_command : CommandMessage → Io (GatewayEngine × W) Dict
  engine_command msg (mock_engine mock, w) =
      let r =
        mock_command rds py env random waits read_float (mock_settings_of settings) msg (mock, w) in
      (r.0, (mock_engine r.1.0, r.1.1))
  engine_command msg (live_engine m, w) =
      let r =
        live_command rds py env tws api waits strftime read_float (opt_settings_of settings) msg
          (m.live, w) in
      (r.0, (live_engine (with_live m r.1).0, r.1.1))
