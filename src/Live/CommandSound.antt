-- ===== src/Live/CommandSound.antt =====
-- A command of handle_command and a round of _opt_cache_loop keep the slots sound.
use mathlib.Core.Path.{subst}
use bifrost_platform_plugin.Prelude.{
  ℕ, sym, Bool, true, false, List, [], ◌∷◌, Option, none, some, map, not, if◌then◌else◌,
}
use bifrost_platform_plugin.Text.{Text, txt, text_eq}
use bifrost_platform_plugin.Float.{Float}
use bifrost_platform_plugin.Effects.{returned, Io, Env, modify, ◌>>◌}
use bifrost_platform_plugin.Effects.Keep.{Keeps, Preserves, Preserves-bind, Preserves-if}
use bifrost_platform_plugin.Json.{Dict, Python}
use bifrost_platform_plugin.Redis.{Redis}
use bifrost_platform_plugin.Protocol.{CommandMessage}
use bifrost_platform_plugin.Connection.{Tws, TwsSlotConfig, SlotConnection}
use bifrost_platform_plugin.Ib.{Ib}
use bifrost_platform_plugin.Live.State.{Gate, LiveIo, host_slot, disconnect_all, reconnect_all}
use bifrost_platform_plugin.Live.Slots.{AllSound, disconnect_all-AllSound, reconnect_all-AllSound}
use bifrost_platform_plugin.Live.OptCache.{
  OptSettings, Waits, mark_progress, loop_body, refresh_opt_cache_once, opt_cache_round,
}
use bifrost_platform_plugin.Live.Commands.{
  health_reply, on_slot, on_host, refresh_host, dispatch, count_command, handle_command, refresh_op,
}
use bifrost_platform_plugin.Live.HealthSound.{GateSound}
use bifrost_platform_plugin.Live.Reads.{
  session_part, sessions, on_slot-Keeps, on_host-Keeps, refresh_host-Keeps, refresh-sessions,
}

-- The time of the last message has no part in soundness.
session_part-AllSound :
    (slots : List (TwsSlotConfig × SlotConnection))
    → AllSound slots
    → AllSound (map session_part slots)
session_part-AllSound [] h = tt
session_part-AllSound ((cfg, sc) ∷ slots) h = (
  record {
    has_session = h.0.has_session;
    not_maintained = h.0.not_maintained;
    settled = h.0.settled;
    in_range = h.0.in_range;
  },
  session_part-AllSound slots h.1,
)

of_session_part-AllSound :
    (slots : List (TwsSlotConfig × SlotConnection))
    → AllSound (map session_part slots)
    → AllSound slots
of_session_part-AllSound [] h = tt
of_session_part-AllSound ((cfg, sc) ∷ slots) h = (
  record {
    has_session = h.0.has_session;
    not_maintained = h.0.not_maintained;
    settled = h.0.settled;
    in_range = h.0.in_range;
  },
  of_session_part-AllSound slots h.1,
)

Keeps-GateSound : {W A : Type 0} (m : LiveIo W A) → Keeps sessions m → Preserves GateSound m
Keeps-GateSound m k g h =
    of_session_part-AllSound (m g).1.0.slots
      (subst AllSound (sym (k g)) (session_part-AllSound g.0.slots h))

if-Sound :
    {W : Type 0} (b : Bool) (x y : Gate W)
    → GateSound x
    → GateSound y
    → GateSound (if b then x else y)
if-Sound true x y h k = h
if-Sound false x y h k = k

module _ {W : Type 0} (rds : Redis W) (py : Python) (env : Env W) (tws : Tws W) (api : Ib W)
    (waits : Waits W) (strftime : Float → Text) (read_float : Text → Option Float)
    (settings : OptSettings) where
  modify_health-Preserves :
      (f : Gate W → Gate W)
      → ((g : Gate W) → GateSound g → GateSound (f g))
      → Preserves GateSound
          (modify f >> health_reply rds py env tws api waits strftime read_float settings)
  unfolding health_reply
  modify_health-Preserves f h =
      Preserves-bind GateSound (modify f)
        (λ u. health_reply rds py env tws api waits strftime read_float settings) h (λ u g k. k)

  on_slot-Preserves :
      (payload : Dict) (read : ℕ → Io W Dict)
      → Preserves GateSound
          (on_slot rds py env tws api waits strftime read_float settings payload read)
  on_slot-Preserves payload read =
      Keeps-GateSound (on_slot rds py env tws api waits strftime read_float settings payload read)
        (on_slot-Keeps rds py env tws api waits strftime read_float settings payload read)

  on_host-Preserves :
      (read : ℕ → Io W Dict)
      → Preserves GateSound (on_host rds py env tws api waits strftime read_float settings read)
  on_host-Preserves read =
      Keeps-GateSound (on_host rds py env tws api waits strftime read_float settings read)
        (on_host-Keeps rds py env tws api waits strftime read_float settings read)

  dispatch-Preserves :
      (op : Text) (payload : Dict)
      → Preserves GateSound
          (dispatch rds py env tws api waits strftime read_float settings op payload)
  unfolding dispatch refresh_op health_reply
  dispatch-Preserves op payload =
      Preserves-if GateSound (text_eq op (txt "ping")) _ _ (λ g k. k)
        (Preserves-if GateSound (text_eq op (txt "disconnect_all")) _ _
          (modify_health-Preserves (disconnect_all tws)
            (λ g k. disconnect_all-AllSound tws g.0 g.1 k))
          (Preserves-if GateSound (text_eq op (txt "reconnect_all")) _ _
            (modify_health-Preserves (reconnect_all tws)
              (λ g k. reconnect_all-AllSound tws g.0 g.1 k))
            (Preserves-if GateSound (text_eq op (txt "fetch_accounts_snapshot")) _ _
              (on_slot-Preserves payload _)
              (Preserves-if GateSound (text_eq op (txt "fetch_executions")) _ _
                (on_slot-Preserves payload _)
                (Preserves-if GateSound (text_eq op (txt "fetch_bars")) _ _ (on_host-Preserves _) (
                  Preserves-if GateSound (text_eq op (txt "fetch_option_expirations")) _ _
                    (on_host-Preserves _)
                    (Preserves-if GateSound (text_eq op (txt "fetch_option_snapshot")) _ _
                      (on_host-Preserves _)
                      (Preserves-if GateSound (text_eq op (txt "refresh_option_cache")) _ _
                        (λ g.
                          Keeps-GateSound
                            (refresh_host rds py env tws api waits strftime read_float settings
                              payload (host_slot g.0))
                            (refresh_host-Keeps rds py env tws api waits strftime read_float
                              settings payload (host_slot g.0))
                            g)
                        (λ g k. k)))))))))

  pub handle_command-Preserves :
      (msg : CommandMessage)
      → Preserves GateSound
          (handle_command rds py env tws api waits strftime read_float settings msg)
  unfolding handle_command count_command
  handle_command-Preserves msg =
      Preserves-bind GateSound (modify count_command)
        (λ u. dispatch rds py env tws api waits strftime read_float settings msg.op msg.payload)
        (λ g k. k) (λ u. dispatch-Preserves msg.op msg.payload)

  loop_body-GateSound :
      (host : Option (TwsSlotConfig × SlotConnection)) (g : Gate W)
      → GateSound g
      → GateSound (loop_body rds py env api waits read_float settings host g)
  unfolding loop_body
  loop_body-GateSound none g k = k
  loop_body-GateSound (some host) g k =
      Keeps-GateSound
        (λ g.
          (returned tt, (refresh_opt_cache_once rds py env api waits read_float settings host g).1))
        (refresh-sessions rds py env api waits read_float settings host) g k

  pub opt_cache_round-GateSound :
      (g : Gate W)
      → GateSound g
      → GateSound (opt_cache_round rds py env api waits read_float settings g)
  unfolding opt_cache_round mark_progress host_slot
  opt_cache_round-GateSound (live, w) k = if-Sound (not settings.opt_cache_enabled) _ _ k (
      loop_body-GateSound (host_slot live) (record live { opt_cache_progress_at = env.now w }, w) k)
