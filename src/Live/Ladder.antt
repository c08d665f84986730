-- ===== src/Live/Ladder.antt =====
-- The self-healing over many checks.
use bifrost_platform_plugin.Prelude.{
  ℕ, suc, ◌+◌, ◌≤◌, ◌≡◌, ◌⊎◌, refl, ap, sym, ◌∙◌, Bool, true, false, [], Option, some, arith, inl,
  inr,
}
use bifrost_platform_plugin.Text.{Text, txt}
use bifrost_platform_plugin.Float.{Float, add_f, sub_f, leb_f, ltb_f}
use bifrost_platform_plugin.Effects.{Outcome, returned, Env}
use bifrost_platform_plugin.Json.{Python}
use bifrost_platform_plugin.Redis.{Redis}
use bifrost_platform_plugin.RedisKeys.{ib_account_snapshot_key, ib_gateway_self_heal_key}
use bifrost_platform_plugin.Writer.{Writer, enabled_of, read_self_heal_enabled}
use bifrost_platform_plugin.Connection.{Tws}
use bifrost_platform_plugin.Live.State.{Live, Settings, on_redis, disconnect_all, reconnect_all}
use bifrost_platform_plugin.Live.SelfHeal.{
  Healed, done, exited, snapshot_time, read_snapshot_updated_at, counted, clear_tickers,
  soft_reconnect, heal, heal_if, judge, check_snapshot, maybe_self_heal_snapshot_stale,
}
use bifrost_platform_plugin.Live.Visits.{Reconnected, slots-Reconnected}
use bifrost_platform_plugin.Live.Heal.{HashWrites, check, healed, heal_lem, check_lem}

module _ {W : Type 0} (rds : Redis W) (py : Python) (env : Env W) (tws : Tws W) (wr : Writer)
    (settings : Settings) where
  -- The reply of HGET on the kill switch.
  abbrev switch : W → Outcome (Option Text) × W
  switch w = rds.hget ib_gateway_self_heal_key (txt "enabled") w

  -- When the setting is off, or the kill switch is off, or the host is down, or the cooldown of
  -- the last reconnect still runs, a check does nothing but read the kill switch: the gateway,
  -- its slots and the world stay as they are, and the process goes on.
  pub gated_check_stays :
      (host_ok : Bool) (live : Live) (w : W)
      → ((settings.self_heal_enabled ≡ false)
          ⊎ ((enabled_of (switch w).0 ≡ false)
              ⊎ ((host_ok ≡ false) ⊎ (ltb_f (env.now (switch w).1) live.cooldown_until ≡ true))))
      → check rds py env tws wr settings host_ok (live, w) ≡ (returned done, (live, (switch w).1))
  unfolding maybe_self_heal_snapshot_stale heal_if on_redis read_self_heal_enabled check_snapshot
  gated_check_stays host_ok live w gate = ground arith

  -- Checks in a row from a streak of 0, each in any world, where other work on the gateway in
  -- between leaves the streak alone and no check has ended the process.
  pub data Checks : ℕ → Live → Type 0 where
    start : {live : Live} → live.stale_streak ≡ 0 → Checks 0 live
    between :
        {n : ℕ} {live live' : Live}
        → Checks n live
        → live'.stale_streak ≡ live.stale_streak
        → Checks n live'
    next :
        {n : ℕ} {live live' : Live} (host_ok : Bool) (w w' : W)
        → Checks n live
        → check rds py env tws wr settings host_ok (live, w) ≡ (returned done, (live', w'))
        → Checks (suc n) live'

  Checks-streak : {n : ℕ} {live : Live} → HashWrites rds → Checks n live → live.stale_streak ≤ n
  Checks-streak works (start e) = omega arith
  Checks-streak works (between c e) = let l = Checks-streak works c in omega arith
  Checks-streak works (next {live} {live'} host_ok w w' c e) =
      let l = Checks-streak works c in
      let (r, live2, w2, e2, (le, x)) = check_lem rds py env tws wr settings host_ok live w works in
      let same : live' ≡ live2 = ap (λ g. g.1.0) (sym e ∙ e2) in
      let streaks : live'.stale_streak ≡ live2.stale_streak = ap (λ v. v.stale_streak) same in
      omega arith

  -- While Redis answers HSET, a check always returns, whatever the slots, the clock and the
  -- snapshot are; and after `n` other checks since the streak was 0 it leaves the process running
  -- unless `n + 1` is at least `snapshot_stale_max_before_rollout`.
  pub exit_comes_late :
      {n : ℕ} {live : Live} (host_ok : Bool) (w : W)
      → HashWrites rds
      → Checks n live
      → (r : Healed) × (live' : Live) × (w' : W) × (check rds py env tws wr settings host_ok
            (live, w)
          ≡ (returned r, (live', w')))
        × ((r ≡ done) ⊎ (settings.snapshot_stale_max_before_rollout ≤ n + 1))
  exit_comes_late {n} {live} host_ok w works c =
      let l = Checks-streak works c in
      let (r, live', w', e, (le, x)) = check_lem rds py env tws wr settings host_ok live w works in
      (r, live', w', e, judged r (λ ex. let m = x ex in omega arith))
    where
      judged :
          (r : Healed)
          → ((r ≡ exited) → settings.snapshot_stale_max_before_rollout ≤ n + 1)
          → (r ≡ done) ⊎ (settings.snapshot_stale_max_before_rollout ≤ n + 1)
      judged done late = inl refl
      judged exited late = inr (late refl)

  -- The check of a stale snapshot comes down to `heal`.
  stale_check-heal :
      (live : Live) (w : W) (updated : Float)
      → settings.self_heal_enabled ≡ true
      → enabled_of (switch w).0 ≡ true
      → ltb_f (env.now (switch w).1) live.cooldown_until ≡ false
      → snapshot_time py (rds.get ib_account_snapshot_key (switch w).1).0 ≡ some updated
      → leb_f (sub_f (env.now (switch w).1) updated) settings.snapshot_stale_reconnect_sec ≡ false
      → check rds py env tws wr settings true (live, w)
        ≡ heal rds py env tws wr settings
            (env.now (switch w).1)
            (sub_f (env.now (switch w).1) updated)
            (live, (rds.get ib_account_snapshot_key (switch w).1).1)
  unfolding maybe_self_heal_snapshot_stale heal_if on_redis read_self_heal_enabled check_snapshot
      read_snapshot_updated_at judge
  stale_check-heal live w updated set on due seen stale = simp (set, on, due, seen, stale)

  -- A check of a stale snapshot, with the setting and the kill switch on, the host up and no
  -- cooldown, while Redis answers HSET: the streak grows by one, the cooldown is the time of the
  -- check plus the configured one, the subscriptions are forgotten, every slot in turn is
  -- disconnected, after which none has a session, and only then every slot in turn is connected.
  pub stale_check_reconnects :
      (live : Live) (w : W) (updated : Float)
      → HashWrites rds
      → settings.self_heal_enabled ≡ true
      → enabled_of (switch w).0 ≡ true
      → ltb_f (env.now (switch w).1) live.cooldown_until ≡ false
      → snapshot_time py (rds.get ib_account_snapshot_key (switch w).1).0 ≡ some updated
      → leb_f (sub_f (env.now (switch w).1) updated) settings.snapshot_stale_reconnect_sec ≡ false
      → (r : Healed) × (live' : Live) × (w1 w' : W) × (check rds py env tws wr settings true
            (live, w)
          ≡ (returned r, (live', w')))
        × (live'.stale_streak ≡ live.stale_streak + 1)
        × (live'.cooldown_until ≡ add_f (env.now (switch w).1) settings.soft_reconnect_cooldown_sec)
        × (live'.tickers ≡ [])
        × Reconnected tws live.slots w1 live'.slots
  unfolding soft_reconnect counted clear_tickers disconnect_all reconnect_all
  stale_check_reconnects live w updated works set on due seen stale =
      let w0 = (switch w).1 in
      let (r, w1, w', e, x) =
        heal_lem rds py env tws wr settings (env.now w0) (sub_f (env.now w0) updated) live
          (rds.get ib_account_snapshot_key w0).1 works in
      (
        r,
        (healed rds py env tws wr settings (env.now w0) live w1).0,
        w1,
        w',
        stale_check-heal live w updated set on due seen stale ∙ e,
        refl,
        refl,
        refl,
        slots-Reconnected tws live.slots w1,
      )
