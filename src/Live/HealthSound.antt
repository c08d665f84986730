-- ===== src/Live/HealthSound.antt =====
-- A round of _health_loop keeps the slots sound, its self-healing included.
use bifrost_platform_plugin.Prelude.{
  ℕ, ◌%◌, Bool, true, false, not, ◌&&◌, ◌||◌, ◌==◌, List, [], ◌∷◌, Option, none, some,
  if◌then◌else◌, Bool-cases, inl, inr, ltb, leb,
}
use bifrost_platform_plugin.Text.{txt}
use bifrost_platform_plugin.Float.{Float, sub_f, leb_f, ltb_f}
use bifrost_platform_plugin.Effects.{Io, pure, modify, Env, ◌>>=◌}
use bifrost_platform_plugin.Effects.Keep.{
  Preserves, continue-Preserves, Preserves-bind, Preserves-if,
}
use bifrost_platform_plugin.Json.{Python}
use bifrost_platform_plugin.Redis.{Redis}
use bifrost_platform_plugin.Writer.{Writer, read_self_heal_enabled}
use bifrost_platform_plugin.Connection.{
  Tws, TwsSlotConfig, SlotConnection, Slot, is_connected_state,
}
use bifrost_platform_plugin.Connection.Reach.{IsSound, sync-IsSound, verify-IsSound}
use bifrost_platform_plugin.Live.State.{Live, Settings, Gate, on_redis, find_slot, state_of}
use bifrost_platform_plugin.Live.Slots.{AllSound, all_slots-IsSound}
use bifrost_platform_plugin.Live.SelfHeal.{
  Healed, done, exited, read_snapshot_updated_at, publish, idle_status, settle, exit_status,
  age_after, exit_if, escalate, reconnect_status, counted, clear_tickers, soft_reconnect, heal,
  judge, check_snapshot, heal_if, maybe_self_heal_snapshot_stale, check_opt_cache_liveness,
}
use bifrost_platform_plugin.Live.Health.{
  sync_slots, verify_one, verify_slots, check_slots, heal_when, watch_opt_cache, report_after,
  health_round,
}

-- The slots of the gateway are sound.
abbrev pub GateSound : {W : Type 0} → Gate W → Type 0
GateSound (live, w) = AllSound live.slots

if-GateSound :
    {W A : Type 0} (b : Bool) (x y : A × Gate W)
    → GateSound x.1
    → GateSound y.1
    → GateSound (if b then x else y).1
if-GateSound true x y h k = h
if-GateSound false x y h k = k

if-LiveSound :
    (b : Bool) (x y : Float × Live)
    → AllSound x.1.slots
    → AllSound y.1.slots
    → AllSound (if b then x else y).1.slots
if-LiveSound true x y h k = h
if-LiveSound false x y h k = k

on_redis-Preserves : {W A : Type 0} (m : Io W A) → Preserves GateSound (on_redis m)
unfolding on_redis
on_redis-Preserves m (live, w) h = h

module _ {W : Type 0} (rds : Redis W) (py : Python) (env : Env W) (tws : Tws W) (wr : Writer)
    (settings : Settings) where
  settle-Preserves :
      (now age : Float) → Preserves GateSound (settle rds py env tws wr settings now age)
  unfolding settle publish
  settle-Preserves now age (live, w) h =
      if-GateSound (ltb 0 live.stale_streak) _ _
        (Preserves-bind GateSound
          (publish rds py env tws wr settings (idle_status rds py env tws wr settings now age))
          (λ u. pure done) (on_redis-Preserves _) (λ u g k. k) (record live { stale_streak = 0 }, w)
          h)
        h

  exit_if-Preserves : (age : Float) → Preserves GateSound (exit_if rds py env tws wr settings age)
  unfolding exit_if publish
  exit_if-Preserves age (live, w) h =
      if-GateSound (ltb_f settings.snapshot_stale_reconnect_sec age) _ _
        (Preserves-bind GateSound
          (publish rds py env tws wr settings
            (exit_status rds py env tws wr settings (env.now w) age live))
          (λ u. pure exited) (on_redis-Preserves _) (λ u g k. k) (live, w) h)
        h

  escalate-Preserves : (now : Float) → Preserves GateSound (escalate rds py env tws wr settings now)
  unfolding escalate
  escalate-Preserves now (live, w) h =
      if-GateSound (leb settings.snapshot_stale_max_before_rollout live.stale_streak) _ _
        (Preserves-bind GateSound (on_redis (read_snapshot_updated_at rds py env tws wr settings))
          (λ updated.
            exit_if rds py env tws wr settings (age_after rds py env tws wr settings now updated))
          (on_redis-Preserves _) (λ updated. exit_if-Preserves _) (live, env.sleep 20 w) h)
        h

  soft_reconnect-GateSound :
      (g : Gate W) → GateSound g → GateSound (soft_reconnect rds py env tws wr settings g)
  unfolding soft_reconnect clear_tickers
  soft_reconnect-GateSound (live, w) h =
      (all_slots-IsSound tws (record live { tickers = [] }) w h).1

  heal-Preserves : (now age : Float) → Preserves GateSound (heal rds py env tws wr settings now age)
  unfolding heal counted publish
  heal-Preserves now age (live, w) h =
      Preserves-bind GateSound
        (publish rds py env tws wr settings (
          reconnect_status rds py env tws wr settings now age
            (counted rds py env tws wr settings now live)))
        (λ u. modify (soft_reconnect rds py env tws wr settings) >>= λ v.
          escalate rds py env tws wr settings now)
        (on_redis-Preserves _)
        (λ u.
          Preserves-bind GateSound (modify (soft_reconnect rds py env tws wr settings))
            (λ v. escalate rds py env tws wr settings now) soft_reconnect-GateSound
            (λ v. escalate-Preserves now))
        (counted rds py env tws wr settings now live, w) h

  judge-Preserves :
      (now : Float) (updated : Option Float)
      → Preserves GateSound (judge rds py env tws wr settings now updated)
  unfolding judge
  judge-Preserves now none = λ g h. h
  judge-Preserves now (some updated) =
      Preserves-if GateSound (leb_f (sub_f now updated) settings.snapshot_stale_reconnect_sec) _ _
        (settle-Preserves now _) (heal-Preserves now _)

  check_snapshot-Preserves : Preserves GateSound (check_snapshot rds py env tws wr settings)
  unfolding check_snapshot
  check_snapshot-Preserves (live, w) h =
      if-GateSound (ltb_f (env.now w) live.cooldown_until) _ _ h (
        Preserves-bind GateSound (on_redis (read_snapshot_updated_at rds py env tws wr settings))
          (judge rds py env tws wr settings (env.now w)) (on_redis-Preserves _)
          (judge-Preserves (env.now w)) (live, w) h)

  heal_if-Preserves :
      (host_ok on : Bool) → Preserves GateSound (heal_if rds py env tws wr settings host_ok on)
  unfolding heal_if
  heal_if-Preserves host_ok on =
      Preserves-if GateSound (not settings.self_heal_enabled || not on) _ _ (λ g h. h)
        (Preserves-if GateSound (not host_ok) _ _ (λ g h. h) check_snapshot-Preserves)

  heal_when-Preserves :
      (verify : Bool) → Preserves GateSound (heal_when rds py env tws wr settings verify)
  unfolding heal_when maybe_self_heal_snapshot_stale
  heal_when-Preserves false g h = h
  heal_when-Preserves true g h =
      Preserves-bind GateSound (on_redis (read_self_heal_enabled rds py env))
        (heal_if rds py env tws wr settings (state_of (find_slot (txt "host") g.0.slots)))
        (on_redis-Preserves _) (heal_if-Preserves _) g h

  sync_slots-AllSound :
      (slots : List (TwsSlotConfig × SlotConnection)) (w : W)
      → AllSound slots
      → AllSound (sync_slots rds py env tws wr settings slots w).0
  unfolding sync_slots
  sync_slots-AllSound [] w h = tt
  sync_slots-AllSound ((cfg, sc) ∷ slots) w h =
      (sync-IsSound tws cfg (record { conn = sc; world = w }) h.0, sync_slots-AllSound slots _ h.1)

  verify_one-IsSound :
      (cfg : TwsSlotConfig) (s : Slot W)
      → IsSound cfg s.conn
      → IsSound cfg (verify_one rds py env tws wr settings cfg s).conn
  unfolding verify_one
  verify_one-IsSound cfg s h = elim (Bool-cases (is_connected_state s.conn.state)) [
    | inl up ↦ rw up (verify-IsSound tws cfg s h)
    | inr down ↦ rw down h
  ]

  verify_slots-AllSound :
      (slots : List (TwsSlotConfig × SlotConnection)) (w : W)
      → AllSound slots
      → AllSound (verify_slots rds py env tws wr settings slots w).0
  unfolding verify_slots
  verify_slots-AllSound [] w h = tt
  verify_slots-AllSound ((cfg, sc) ∷ slots) w h = (
    verify_one-IsSound cfg (record { conn = sc; world = w }) h.0,
    verify_slots-AllSound slots _ h.1,
  )

  check_slots-GateSound :
      (verify : Bool) (g : Gate W)
      → GateSound g
      → GateSound (check_slots rds py env tws wr settings verify g)
  unfolding check_slots
  check_slots-GateSound true (live, w) h =
      verify_slots-AllSound _ _ (sync_slots-AllSound live.slots w h)
  check_slots-GateSound false (live, w) h = sync_slots-AllSound live.slots w h

  watch-GateSound :
      (g : Gate W) → GateSound g → GateSound (watch_opt_cache rds py env tws wr settings g)
  unfolding watch_opt_cache check_opt_cache_liveness
  watch-GateSound (live, w) h =
      if-LiveSound
        (ltb_f settings.opt_cache_stale_warn_sec (sub_f (env.now w) live.opt_cache_progress_at)
          && leb_f settings.opt_cache_stale_warn_sec
              (sub_f (env.now w) live.opt_cache_stale_warned_at))
        _ _ h h

  report_after-Preserves :
      (a b : Bool) (r : Healed)
      → Preserves GateSound (report_after rds py env tws wr settings a b r)
  unfolding report_after
  report_after-Preserves a b exited g h = h
  report_after-Preserves a b done g h =
      continue-Preserves GateSound (λ u. pure done) _ _ (λ u v k. k) (watch-GateSound g h)

  -- A round of the health loop keeps every slot sound, whatever Redis and TWS answer: its probes, the
  -- soft reconnect of the self-healing, and wherever an exception or the end of the process cuts it.
  pub health_round-AllSound :
      (tick : ℕ) (live : Live) (w : W)
      → AllSound live.slots
      → AllSound (health_round rds py env tws wr settings tick (live, w)).1.0.slots
  unfolding health_round
  health_round-AllSound tick live w h =
      Preserves-bind GateSound (heal_when rds py env tws wr settings (tick % 3 == 0))
        (report_after rds py env tws wr settings _ _) (heal_when-Preserves (tick % 3 == 0))
        (report_after-Preserves _ _)
        (check_slots rds py env tws wr settings (tick % 3 == 0) (live, w))
        (check_slots-GateSound (tick % 3 == 0) (live, w) h)
