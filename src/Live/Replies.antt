-- ===== src/Live/Replies.antt =====
-- The shapes of the live gateway's replies.
use bifrost_platform_plugin.Prelude.{
  ℕ, refl, ◌||◌, Bool, true, false, List, [], Option, none, some, ℤ, pos, not, if◌then◌else◌,
}
use bifrost_platform_plugin.Text.{Text, txt, text_eq}
use bifrost_platform_plugin.Float.{Float, fin}
use bifrost_platform_plugin.Effects.{Io, Env, lift, modify}
use bifrost_platform_plugin.Effects.Returns.{Returns, Returns-bind, Returns-if}
use bifrost_platform_plugin.Json.{Dict, Python, get_json, truthy, or_json, null, integer, number}
use bifrost_platform_plugin.Redis.{Redis}
use bifrost_platform_plugin.Protocol.{CommandMessage}
use bifrost_platform_plugin.Protocol.Reply.{done, failed, failed_with, dict_of_reply, IsReply}
use bifrost_platform_plugin.Connection.{Tws, TwsSlotConfig, SlotConnection}
use bifrost_platform_plugin.Ib.{Ib}
use bifrost_platform_plugin.IbOps.Accounts.{fetch_accounts_snapshot_rows}
use bifrost_platform_plugin.IbOps.Executions.{fetch_executions}
use bifrost_platform_plugin.IbOps.Snapshot.{fetch_option_snapshot, fetch_option_expirations}
use bifrost_platform_plugin.Live.State.{LiveIo, on_redis, usable, slot_for_payload, host_slot}
use bifrost_platform_plugin.Live.OptCache.{OptSettings, Waits}
use bifrost_platform_plugin.Live.Commands.{
  slot_name, text_field, list_field, strikes_of, clean_keys, expirations_reply, session_of,
  count_command, health_reply, read_with, accounts_op, executions_op, bars_of, symbol_field,
  bars_op, expirations_op, snapshot_of, snapshot_op, on_slot, on_host, register_if, refresh_reply,
  refresh_host, refresh_op, dispatch, handle_command,
}

if-IsReply : (b : Bool) (d e : Dict) → IsReply d → IsReply e → IsReply (if b then d else e)
if-IsReply true d e h k = h
if-IsReply false d e h k = k

expirations-IsReply : (py : Python) (out : Dict) → IsReply (expirations_reply py out)
unfolding expirations_reply dict_of_reply
expirations-IsReply py out =
    if-IsReply (truthy (get_json (txt "error") null out)) _ _ (failed_with _ _, refl) (done _, refl)

module _ {W : Type 0} (rds : Redis W) (py : Python) (env : Env W) (tws : Tws W) (api : Ib W)
    (waits : Waits W) (strftime : Float → Text) (read_float : Text → Option Float)
    (settings : OptSettings) where
  abbrev Replies : Io W Dict → Type 0
  Replies = Returns IsReply

  abbrev LiveReplies : LiveIo W Dict → Type 0
  LiveReplies = Returns IsReply

  health_reply-Replies :
      LiveReplies (health_reply rds py env tws api waits strftime read_float settings)
  unfolding health_reply dict_of_reply
  health_reply-Replies (live, w) = (done _, refl)

  read_with-Replies :
      (error : Text) (read : ℕ → Io W Dict) (ib : Option ℕ)
      → ((n : ℕ) → Replies (read n))
      → Replies (read_with rds py env tws api waits strftime read_float settings error read ib)
  unfolding read_with dict_of_reply
  read_with-Replies error read none h w = (failed _, refl)
  read_with-Replies error read (some ib) h w = h ib w

  accounts_op-Replies :
      (ib : ℕ) → Replies (accounts_op rds py env tws api waits strftime read_float settings ib)
  unfolding accounts_op dict_of_reply
  accounts_op-Replies ib =
      Returns-bind IsReply (fetch_accounts_snapshot_rows api ib) _ (λ rows w. (done _, refl))

  executions_op-Replies :
      (payload : Dict) (ib : ℕ)
      → Replies (executions_op rds py env tws api waits strftime read_float settings payload ib)
  unfolding executions_op dict_of_reply
  executions_op-Replies payload ib =
      Returns-bind IsReply
        (lift (py.int_of (or_json (get_json (txt "days") null payload) (integer (pos 7))))) _
        (λ days.
          Returns-bind IsReply (fetch_executions api env strftime read_float ib days [] true) _
            (λ rows w. (done _, refl)))

  bars_op-Replies :
      (payload : Dict) (ib : ℕ)
      → Replies (bars_op rds py env tws api waits strftime read_float settings payload ib)
  unfolding bars_op bars_of dict_of_reply
  bars_op-Replies payload ib =
      Returns-if IsReply
        (text_eq (symbol_field rds py env tws api waits strftime read_float settings payload) []) _
        _ (λ w. (failed _, refl))
        (Returns-bind IsReply
          (api.bars ib (symbol_field rds py env tws api waits strftime read_float settings payload)
            (text_field py (txt "duration") (txt "1 D") payload)
            (text_field py (txt "period") (txt "1 day") payload))
          _ (λ rows w. (done _, refl)))

  expirations_op-Replies :
      (payload : Dict) (ib : ℕ)
      → Replies (expirations_op rds py env tws api waits strftime read_float settings payload ib)
  unfolding expirations_op dict_of_reply
  expirations_op-Replies payload ib =
      Returns-if IsReply
        (text_eq (symbol_field rds py env tws api waits strftime read_float settings payload) []) _
        _ (λ w. (failed _, refl))
        (Returns-bind IsReply
          (fetch_option_expirations api waits.sleep ib
            (symbol_field rds py env tws api waits strftime read_float settings payload))
          _ (λ out w. expirations-IsReply py out))

  snapshot_of-Replies :
      (ib : ℕ) (symbol expiration : Text) (strikes : List Float) (max_contracts : ℤ)
      (pacing : Float)
      → Replies (
          snapshot_of rds py env tws api waits strftime read_float settings ib symbol expiration
            strikes max_contracts pacing)
  unfolding snapshot_of dict_of_reply
  snapshot_of-Replies ib symbol expiration strikes max_contracts pacing =
      Returns-if IsReply (text_eq symbol [] || text_eq expiration []) _ _ (λ w. (failed _, refl))
        (Returns-bind IsReply
          (fetch_option_snapshot api waits.sleep ib symbol expiration strikes max_contracts pacing)
          _ (λ r w. (done _, refl)))

  snapshot_op-Replies :
      (payload : Dict) (ib : ℕ)
      → Replies (snapshot_op rds py env tws api waits strftime read_float settings payload ib)
  unfolding snapshot_op
  snapshot_op-Replies payload ib =
      Returns-bind IsReply (lift (strikes_of py (list_field (txt "strikes") payload))) _ (λ strikes.
        Returns-bind IsReply
          (lift
            (py.int_of (or_json (get_json (txt "max_contracts") null payload) (integer (pos 20)))))
          _
          (λ n.
            Returns-bind IsReply
              (lift (
                py.float_of
                  (or_json (get_json (txt "pacing_sec") null payload) (number (fin (pos 350000))))))
              _ (λ pacing. snapshot_of-Replies ib _ _ strikes n pacing)))

  on_slot-Replies :
      (payload : Dict) (read : ℕ → Io W Dict)
      → ((n : ℕ) → Replies (read n))
      → LiveReplies (on_slot rds py env tws api waits strftime read_float settings payload read)
  unfolding on_slot on_redis
  on_slot-Replies payload read h (live, w) =
      Returns-bind IsReply (lift (slot_name payload)) _
        (λ name g.
          read_with-Replies _ read (session_of (usable (slot_for_payload name live.slots))) h g.1)
        (live, w)

  on_host-Replies :
      (read : ℕ → Io W Dict)
      → ((n : ℕ) → Replies (read n))
      → LiveReplies (on_host rds py env tws api waits strftime read_float settings read)
  unfolding on_host on_redis
  on_host-Replies read h (live, w) = read_with-Replies _ read (session_of (host_slot live)) h w

  refresh_host-Replies :
      (payload : Dict) (host : Option (TwsSlotConfig × SlotConnection))
      → LiveReplies
          (refresh_host rds py env tws api waits strftime read_float settings payload host)
  unfolding refresh_host refresh_reply dict_of_reply
  refresh_host-Replies payload none g = (failed _, refl)
  refresh_host-Replies payload (some host) g =
      Returns-if IsReply (not settings.opt_cache_enabled) _ _ (λ g. (failed _, refl))
        (Returns-bind IsReply
          (on_redis (
            register_if rds py env tws api waits strftime read_float settings
              (clean_keys py (list_field (txt "contract_keys") payload))))
          _ (λ r g. (done _, refl)))
        g

  dispatch-Replies :
      (op : Text) (payload : Dict)
      → LiveReplies (dispatch rds py env tws api waits strftime read_float settings op payload)
  unfolding dispatch refresh_op dict_of_reply
  dispatch-Replies op payload =
      Returns-if IsReply (text_eq op (txt "ping")) _ _ health_reply-Replies (
        Returns-if IsReply (text_eq op (txt "disconnect_all")) _ _ (λ g. health_reply-Replies _)
          (Returns-if IsReply (text_eq op (txt "reconnect_all")) _ _ (λ g. health_reply-Replies _)
            (Returns-if IsReply (text_eq op (txt "fetch_accounts_snapshot")) _ _
              (on_slot-Replies payload _ accounts_op-Replies)
              (Returns-if IsReply (text_eq op (txt "fetch_executions")) _ _
                (on_slot-Replies payload _ (executions_op-Replies payload))
                (Returns-if IsReply (text_eq op (txt "fetch_bars")) _ _
                  (on_host-Replies _ (bars_op-Replies payload))
                  (Returns-if IsReply (text_eq op (txt "fetch_option_expirations")) _ _
                    (on_host-Replies _ (expirations_op-Replies payload))
                    (Returns-if IsReply (text_eq op (txt "fetch_option_snapshot")) _ _
                      (on_host-Replies _ (snapshot_op-Replies payload))
                      (Returns-if IsReply (text_eq op (txt "refresh_option_cache")) _ _
                        (λ g. refresh_host-Replies payload (host_slot g.0) g)
                        (λ g. (failed _, refl))))))))))

  pub live_command-Replies :
      (msg : CommandMessage)
      → LiveReplies (handle_command rds py env tws api waits strftime read_float settings msg)
  unfolding handle_command
  live_command-Replies msg =
      Returns-bind IsReply (modify count_command)
        (λ u. dispatch rds py env tws api waits strftime read_float settings msg.op msg.payload)
        (λ u. dispatch-Replies msg.op msg.payload)
