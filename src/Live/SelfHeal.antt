-- ===== src/Live/SelfHeal.antt =====
-- _read_snapshot_updated_at, _maybe_self_heal_snapshot_stale and _check_opt_cache_liveness.
use bifrost_platform_plugin.Prelude.{
  ℕ, ◌+◌, Bool, true, false, not, ◌||◌, ◌&&◌, [], ◌∷◌, ◌++◌, Option, none, some, ltb, leb,
  if◌then◌else◌, pos,
}
use bifrost_platform_plugin.Text.{Text, txt}
use bifrost_platform_plugin.Float.{Float, fin, add_f, sub_f, leb_f, ltb_f, zero_f}
use bifrost_platform_plugin.Effects.{
  Outcome, returned, raised, Io, pure, attempt, modify, ◌>>=◌, Env,
}
use bifrost_platform_plugin.Json.{Json, null, object, dict_of, get_json, Python}
use bifrost_platform_plugin.Redis.{Redis}
use bifrost_platform_plugin.RedisKeys.{ib_account_snapshot_key}
use bifrost_platform_plugin.Writer.{
  Writer, SelfHealStatus, read_self_heal_enabled, write_self_heal_status,
}
use bifrost_platform_plugin.Connection.{Tws}
use bifrost_platform_plugin.Live.State.{
  Live, Settings, Gate, LiveIo, on_redis, disconnect_all, reconnect_all,
}

unfoldable pub read_or_none : Outcome Float → Option Float
read_or_none (returned x) = some x
read_or_none (raised e) = none

-- data.get("updated_at"), as a float
unfoldable pub updated_of : Python → Json → Option Float
updated_of py null = none
updated_of py v = read_or_none (py.float_of v)

unfoldable pub snapshot_field : Python → Option Json → Option Float
snapshot_field py (some (object d)) = updated_of py (get_json (txt "updated_at") null (dict_of d))
snapshot_field py _ = none

unfoldable pub snapshot_time : Python → Outcome (Option Text) → Option Float
snapshot_time py (returned (some (c ∷ raw))) = snapshot_field py (py.loads (c ∷ raw))
snapshot_time py _ = none

-- The end of a check: `exited` is os._exit(1).
pub data Healed : Type 0 where
  done exited : Healed

-- A second is one million ticks.
abbrev pub one_second : Float
one_second = fin (pos 1000000)

module _ {W : Type 0} (rds : Redis W) (py : Python) (env : Env W) (tws : Tws W) (wr : Writer)
    (settings : Settings) where
  unfoldable pub read_snapshot_updated_at : Io W (Option Float)
  read_snapshot_updated_at =
      attempt (rds.get ib_account_snapshot_key) >>= λ raw. pure (snapshot_time py raw)

  unfoldable pub publish : SelfHealStatus → LiveIo W (Unit {0})
  publish status = on_redis (write_self_heal_status rds py env wr status)

  abbrev limit : Float
  limit = settings.snapshot_stale_reconnect_sec

  abbrev max_streak : ℕ
  max_streak = settings.snapshot_stale_max_before_rollout

  unfoldable pub idle_status : Float → Float → SelfHealStatus
  idle_status now age = record {
    last_action = txt "idle";
    last_action_ts = now;
    stale_streak = 0;
    cooldown_until = zero_f;
    reason = txt "snapshot_fresh";
    self_heal_enabled = true;
    rollout_recommended = false;
    snapshot_age_sec = some age;
  }

  -- The snapshot is fresh.
  unfoldable pub settle : Float → Float → LiveIo W Healed
  settle now age (live, w) =
      if ltb 0 live.stale_streak
      then (publish (idle_status now age) >>= λ _. pure done) (record live { stale_streak = 0 }, w)
      else (returned done, (live, w))

  unfoldable pub exit_status : Float → Float → Live → SelfHealStatus
  exit_status now age live = record {
    last_action = txt "pod_restart_escalation";
    last_action_ts = now;
    stale_streak = live.stale_streak;
    cooldown_until = live.cooldown_until;
    reason = txt "snapshot_still_stale_" ++ (py.format_0f age ++ txt "s_after_soft_reconnect");
    self_heal_enabled = true;
    rollout_recommended = true;
    snapshot_age_sec = some age;
  }

  unfoldable pub age_after : Float → Option Float → Float
  age_after now none = add_f limit one_second
  age_after now (some updated) = sub_f now updated

  unfoldable pub exit_if : Float → LiveIo W Healed
  exit_if age (live, w) =
      if ltb_f limit age
      then (publish (exit_status (env.now w) age live) >>= λ _. pure exited) (live, w)
      else (returned done, (live, w))

  -- From the second test of the streak on.
  unfoldable pub escalate : Float → LiveIo W Healed
  escalate now (live, w) =
      if leb max_streak live.stale_streak
      then (modify (λ g. (g.0, env.sleep 20 g.1)) >>= λ _.
            on_redis read_snapshot_updated_at >>= λ updated. exit_if (age_after now updated))
          (live, w)
      else (returned done, (live, w))

  unfoldable pub reconnect_status : Float → Float → Live → SelfHealStatus
  reconnect_status now age live = record {
    last_action = txt "soft_reconnect";
    last_action_ts = now;
    stale_streak = live.stale_streak;
    cooldown_until = live.cooldown_until;
    reason = txt "snapshot_stale_" ++ (py.format_0f age ++ txt "s");
    self_heal_enabled = true;
    rollout_recommended = leb max_streak live.stale_streak;
    snapshot_age_sec = some age;
  }

  unfoldable pub counted : Float → Live → Live
  counted now live = record live {
    stale_streak = live.stale_streak + 1;
    cooldown_until = add_f now settings.soft_reconnect_cooldown_sec;
  }

  unfoldable pub clear_tickers : Gate W → Gate W
  clear_tickers (live, w) = (record live { tickers = [] }, w)

  -- self._tickers.clear(); disconnect_all(); reconnect_all()
  unfoldable pub soft_reconnect : Gate W → Gate W
  soft_reconnect g = reconnect_all tws (disconnect_all tws (clear_tickers g))

  -- The snapshot is stale.
  unfoldable pub heal : Float → Float → LiveIo W Healed
  heal now age (live, w) =
      (publish (reconnect_status now age (counted now live)) >>= λ _.
      modify soft_reconnect >>= λ _. escalate now)
        (counted now live, w)

  unfoldable pub judge : Float → Option Float → LiveIo W Healed
  judge now none = pure done
  judge now (some updated_at) =
      if leb_f (sub_f now updated_at) limit
      then settle now (sub_f now updated_at)
      else heal now (sub_f now updated_at)

  unfoldable pub check_snapshot : LiveIo W Healed
  check_snapshot (live, w) =
      if ltb_f (env.now w) live.cooldown_until
      then (returned done, (live, w))
      else (on_redis read_snapshot_updated_at >>= judge (env.now w)) (live, w)

  unfoldable pub heal_if : Bool → Bool → LiveIo W Healed
  heal_if host_ok runtime_enabled =
      if not settings.self_heal_enabled || not runtime_enabled
      then pure done
      else if not host_ok
      then pure done
      else check_snapshot

  unfoldable pub maybe_self_heal_snapshot_stale : Bool → LiveIo W Healed
  maybe_self_heal_snapshot_stale host_ok =
      on_redis (read_self_heal_enabled rds py env) >>= heal_if host_ok

  -- Returns the age of the heartbeat; the mark moves when the gateway warns.
  unfoldable pub check_opt_cache_liveness : Float → Live → Float × Live
  check_opt_cache_liveness ts live =
      let age = sub_f ts live.opt_cache_progress_at in
      let warn_sec = settings.opt_cache_stale_warn_sec in
      if ltb_f warn_sec age && leb_f warn_sec (sub_f ts live.opt_cache_stale_warned_at)
      then (age, record live { opt_cache_stale_warned_at = ts })
      else (age, live)
