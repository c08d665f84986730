-- ===== src/Mock/Replies.antt =====
-- The shapes of the mock's replies.
use bifrost_platform_plugin.Prelude.{refl, Option, not}
use bifrost_platform_plugin.Text.{Text, txt, text_eq}
use bifrost_platform_plugin.Float.{Float}
use bifrost_platform_plugin.Effects.{Env, modify}
use bifrost_platform_plugin.Effects.Returns.{Returns, Returns-bind, Returns-if}
use bifrost_platform_plugin.Json.{Dict, Python}
use bifrost_platform_plugin.Redis.{Redis}
use bifrost_platform_plugin.Protocol.{CommandMessage}
use bifrost_platform_plugin.Protocol.Reply.{done, failed, dict_of_reply, IsReply}
use bifrost_platform_plugin.Live.OptCache.{Waits}
use bifrost_platform_plugin.Mock.State.{MockGateway, MockSettings, Random, MockIo}
use bifrost_platform_plugin.Mock.OptCache.{refresh_opt_cache_once}
use bifrost_platform_plugin.Mock.Commands.{
  count_mock, mock_reply, mock_refresh, mock_dispatch, handle_command,
}

module _ {W : Type 0} (rds : Redis W) (py : Python) (env : Env W) (random : Random W)
    (waits : Waits W) (read_float : Text → Option Float) (settings : MockSettings) where
  abbrev Replies : MockIo W Dict → Type 0
  Replies = Returns IsReply

  mock_reply-Replies :
      (data_of : MockGateway → Float → Dict)
      → Replies (mock_reply rds py env random waits read_float settings data_of)
  unfolding mock_reply dict_of_reply
  mock_reply-Replies data_of g = (done _, refl)

  mock_refresh-Replies : Replies (mock_refresh rds py env random waits read_float settings)
  unfolding mock_refresh dict_of_reply
  mock_refresh-Replies =
      Returns-if IsReply (not settings.opt.opt_cache_enabled) _ _ (λ g. (failed _, refl))
        (Returns-bind IsReply (refresh_opt_cache_once rds py env random waits read_float settings) _
          (λ n g. (done _, refl)))

  mock_dispatch-Replies :
      (op : Text) (payload : Dict)
      → Replies (mock_dispatch rds py env random waits read_float settings op payload)
  unfolding mock_dispatch dict_of_reply
  mock_dispatch-Replies op payload =
      Returns-if IsReply (text_eq op (txt "ping")) _ _ (mock_reply-Replies _) (
        Returns-if IsReply (text_eq op (txt "disconnect_all")) _ _ (mock_reply-Replies _) (
          Returns-if IsReply (text_eq op (txt "reconnect_all")) _ _ (mock_reply-Replies _) (
            Returns-if IsReply (text_eq op (txt "fetch_accounts_snapshot")) _ _
              (mock_reply-Replies _)
              (Returns-if IsReply (text_eq op (txt "fetch_executions")) _ _ (mock_reply-Replies _) (
                Returns-if IsReply (text_eq op (txt "fetch_bars")) _ _ (mock_reply-Replies _) (
                  Returns-if IsReply (text_eq op (txt "fetch_option_expirations")) _ _
                    (mock_reply-Replies _)
                    (Returns-if IsReply (text_eq op (txt "fetch_option_snapshot")) _ _
                      (mock_reply-Replies _)
                      (Returns-if IsReply (text_eq op (txt "refresh_option_cache")) _ _
                        mock_refresh-Replies (λ g. (failed _, refl))))))))))

  pub mock_command-Replies :
      (msg : CommandMessage)
      → Replies (handle_command rds py env random waits read_float settings msg)
  unfolding handle_command
  mock_command-Replies msg =
      Returns-bind IsReply (modify count_mock)
        (λ u. mock_dispatch rds py env random waits read_float settings msg.op msg.payload)
        (λ u. mock_dispatch-Replies msg.op msg.payload)
