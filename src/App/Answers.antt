-- ===== src/App/Answers.antt =====
-- The envelopes of what either engine answers.
use bifrost_platform_plugin.Prelude.{refl, inl, inr, Option}
use bifrost_platform_plugin.Text.{Text, get, text_eq}
use bifrost_platform_plugin.Float.{Float}
use bifrost_platform_plugin.Effects.{Outcome, returned, raised, Env}
use bifrost_platform_plugin.Effects.Returns.{Holds}
use bifrost_platform_plugin.Json.{Dict, Python, get_json, merge, put}
use bifrost_platform_plugin.Redis.{Redis}
use bifrost_platform_plugin.Protocol.{CommandMessage}
use bifrost_platform_plugin.Protocol.Reply.{
  Reply, done, failed, failed_with, dict_of_reply, IsReply, IsEnvelope,
}
use bifrost_platform_plugin.Operator.{failure, success, envelope_of}
use bifrost_platform_plugin.Connection.{Tws}
use bifrost_platform_plugin.Ib.{Ib}
use bifrost_platform_plugin.Live.OptCache.{Waits}
use bifrost_platform_plugin.Live.Replies.{live_command-Replies}
use bifrost_platform_plugin.Mock.State.{Random}
use bifrost_platform_plugin.Mock.Replies.{mock_command-Replies}
use bifrost_platform_plugin.Startup.Load.{GatewaySettings, opt_settings_of}
use bifrost_platform_plugin.App.{
  GatewayEngine, mock_engine, live_engine, mock_settings_of, engine_command,
}

success-IsEnvelope :
    (req_id : Text) (r : Reply) → IsEnvelope req_id (success req_id (dict_of_reply r))
unfolding success dict_of_reply merge put get_json get text_eq
success-IsEnvelope req_id (done value) = (refl, inl (refl, value, refl))
success-IsEnvelope req_id (failed message) = (refl, inr (refl, message, refl))
success-IsEnvelope req_id (failed_with message value) = (refl, inr (refl, message, refl))

envelope_of-IsEnvelope :
    (req_id : Text) (r : Outcome Dict) → Holds IsReply r → IsEnvelope req_id (envelope_of req_id r)
unfolding envelope_of failure get text_eq
envelope_of-IsEnvelope req_id (returned d) (r, e) = rw e (success-IsEnvelope req_id r)
envelope_of-IsEnvelope req_id (raised e) h = (refl, inr (refl, e.message, refl))

module _ {W : Type 0} (rds : Redis W) (py : Python) (env : Env W) (tws : Tws W) (api : Ib W)
    (random : Random W) (waits : Waits W) (strftime : Float → Text)
    (read_float : Text → Option Float) (settings : GatewaySettings) where
  engine_command-Replies :
      (msg : CommandMessage) (g : GatewayEngine × W)
      → Holds IsReply
          (engine_command rds py env tws api random waits strftime read_float settings msg g).0
  unfolding engine_command
  engine_command-Replies msg (mock_engine mock, w) =
      mock_command-Replies rds py env random waits read_float (mock_settings_of settings) msg
        (mock, w)
  engine_command-Replies msg (live_engine m, w) =
      live_command-Replies rds py env tws api waits strftime read_float (opt_settings_of settings)
        msg (m.live, w)

  -- Whichever engine runs, for every command, known or not, and whatever Redis and TWS answer, an
  -- exception of the handler included, the envelope of the result carries the command's req_id,
  -- and either `ok` true and data, or `ok` false and an error text.
  pub engine_answers :
      (msg : CommandMessage) (engine : GatewayEngine) (w : W)
      → IsEnvelope msg.req_id (
          envelope_of msg.req_id
            (engine_command rds py env tws api random waits strftime read_float settings msg
              (engine, w)).0)
  engine_answers msg engine w =
      envelope_of-IsEnvelope msg.req_id _ (engine_command-Replies msg (engine, w))
