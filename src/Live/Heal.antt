-- ===== src/Live/Heal.antt =====
-- What one check of the snapshot does.
use bifrost_platform_plugin.Prelude.{
  ◌+◌, ◌≤◌, ◌≡◌, refl, Bool, true, not, ◌||◌, Option, none, some, arith, Bool-cases, inl, inr, ltb,
  leb, leb→le,
}
use bifrost_platform_plugin.Text.{Text, Fields, txt}
use bifrost_platform_plugin.Float.{Float, sub_f, leb_f, ltb_f}
use bifrost_platform_plugin.Effects.{returned, Env}
use bifrost_platform_plugin.Json.{Python}
use bifrost_platform_plugin.Redis.{Redis}
use bifrost_platform_plugin.RedisKeys.{ib_account_snapshot_key, ib_gateway_self_heal_key}
use bifrost_platform_plugin.Writer.{
  Writer, SelfHealStatus, enabled_of, mapping_of, status_fields, read_self_heal_enabled,
  recover_hash, write_hash, write_self_heal_status,
}
use bifrost_platform_plugin.Connection.{Tws}
use bifrost_platform_plugin.Live.State.{
  Live, Settings, Gate, LiveIo, on_redis, disconnect_all, reconnect_all,
}
use bifrost_platform_plugin.Live.SelfHeal.{
  Healed, done, exited, snapshot_time, read_snapshot_updated_at, publish, idle_status, settle,
  exit_status, age_after, exit_if, escalate, reconnect_status, counted, clear_tickers,
  soft_reconnect, heal, judge, check_snapshot, heal_if, maybe_self_heal_snapshot_stale,
}

-- Redis answers every HSET.
abbrev pub HashWrites : {W : Type 0} → Redis W → Type 0
HashWrites rds = (key : Text) (fields : Fields) (w : _) → (rds.hset key fields w).0 ≡ returned tt

module _ {W : Type 0} (rds : Redis W) (py : Python) (env : Env W) (tws : Tws W) (wr : Writer)
    (settings : Settings) where
  abbrev pub check : Bool → LiveIo W Healed
  check = maybe_self_heal_snapshot_stale rds py env tws wr settings

  publish_returns :
      (status : SelfHealStatus) (live : Live) (w : W)
      → HashWrites rds
      → (w' : W) × (publish rds py env tws wr settings status (live, w) ≡ (returned tt, (live, w')))
  unfolding publish on_redis write_self_heal_status write_hash recover_hash
  publish_returns status live w works = (
    (publish rds py env tws wr settings status (live, w)).1.1,
    rw (works ib_gateway_self_heal_key (mapping_of py (status_fields wr (env.now w) status)) w),
  )

  exit_if_lem :
      (age : Float) (live : Live) (w : W)
      → HashWrites rds
      → (r : Healed) × (w' : W) × (exit_if rds py env tws wr settings age (live, w)
          ≡ (returned r, (live, w')))
        × ((r ≡ exited) → ltb_f settings.snapshot_stale_reconnect_sec age ≡ true)
  unfolding exit_if
  exit_if_lem age live w works =
      elim (Bool-cases (ltb_f settings.snapshot_stale_reconnect_sec age)) [
        | inl old ↦
            let (w', e) =
              publish_returns (exit_status rds py env tws wr settings (env.now w) age live) live w
                works in
            (exited, w', rw (old, e), λ _. old)
        | inr young ↦ (done, w, rw young, λ e. cc)
      ]

  escalate_lem :
      (now : Float) (live : Live) (w : W)
      → HashWrites rds
      → (r : Healed) × (w' : W) × (escalate rds py env tws wr settings now (live, w)
          ≡ (returned r, (live, w')))
        × ((r ≡ exited) → settings.snapshot_stale_max_before_rollout ≤ live.stale_streak)
  unfolding escalate on_redis read_snapshot_updated_at
  escalate_lem now live w works =
      elim (Bool-cases (leb settings.snapshot_stale_max_before_rollout live.stale_streak)) [
        | inl due ↦
            let seen = rds.get ib_account_snapshot_key (env.sleep 20 w) in
            let (r, w', e, x) =
              exit_if_lem (age_after rds py env tws wr settings now (snapshot_time py seen.0)) live
                seen.1 works in
            (r, w', rw (due, e), λ _. leb→le _ _ due)
        | inr early ↦ (done, w, rw early, λ e. cc)
      ]

  -- What a stale snapshot makes of the gateway, before the streak is judged.
  abbrev pub healed : Float → Live → W → Gate W
  healed now live w =
      soft_reconnect rds py env tws wr settings (counted rds py env tws wr settings now live, w)

  pub heal_lem :
      (now age : Float) (live : Live) (w : W)
      → HashWrites rds
      → (r : Healed) × (w1 w' : W) × (heal rds py env tws wr settings now age (live, w)
          ≡ (returned r, ((healed now live w1).0, w')))
        × ((r ≡ exited) → settings.snapshot_stale_max_before_rollout ≤ live.stale_streak + 1)
  unfolding heal soft_reconnect counted clear_tickers disconnect_all reconnect_all
  heal_lem now age live w works =
      let live1 = counted rds py env tws wr settings now live in
      let (w1, published) =
        publish_returns (reconnect_status rds py env tws wr settings now age live1) live1 w works in
      let g = healed now live w1 in
      let (r, w', e, x) = escalate_lem now g.0 g.1 works in (r, w1, w', rw (published, e), x)

  -- What a check may do to the streak.
  abbrev pub Counts : Live → Healed → Live → Type 0
  Counts live r live' =
      (live'.stale_streak ≤ live.stale_streak + 1)
      × ((r ≡ exited) → settings.snapshot_stale_max_before_rollout ≤ live.stale_streak + 1)

  abbrev pub Ends : LiveIo W Healed → Live → W → Type 0
  Ends m live w =
      (r : Healed) × (live' : Live) × (w' : W) × (m (live, w) ≡ (returned r, (live', w')))
      × Counts live r live'

  stays : (live : Live) → Counts live done live
  stays live = (omega arith, λ e. cc)

  settle_lem :
      (now age : Float) (live : Live) (w : W)
      → HashWrites rds
      → Ends (settle rds py env tws wr settings now age) live w
  unfolding settle
  settle_lem now age live w works = elim (Bool-cases (ltb 0 live.stale_streak)) [
    | inl some_streak ↦
        let (w', e) =
          publish_returns (idle_status rds py env tws wr settings now age)
            (record live { stale_streak = 0 }) w works in
        (done, record live { stale_streak = 0 }, w', rw (some_streak, e), (omega arith, λ e. cc))
    | inr none_yet ↦ (done, live, w, rw none_yet, stays live)
  ]

  judge_lem :
      (now : Float) (updated : Option Float) (live : Live) (w : W)
      → HashWrites rds
      → Ends (judge rds py env tws wr settings now updated) live w
  unfolding judge soft_reconnect counted clear_tickers disconnect_all reconnect_all
  judge_lem now none live w works = (done, live, w, refl, stays live)
  judge_lem now (some t) live w works =
      elim (Bool-cases (leb_f (sub_f now t) settings.snapshot_stale_reconnect_sec)) [
        | inl fresh ↦
            let (r, live', w', e, c) = settle_lem now (sub_f now t) live w works in
            (r, live', w', rw (fresh, e), c)
        | inr stale ↦
            let (r, w1, w', e, x) = heal_lem now (sub_f now t) live w works in
            (r, (healed now live w1).0, w', rw (stale, e), (omega arith, x))
      ]

  check_snapshot_lem :
      (live : Live) (w : W)
      → HashWrites rds
      → Ends (check_snapshot rds py env tws wr settings) live w
  unfolding check_snapshot on_redis read_snapshot_updated_at
  check_snapshot_lem live w works = elim (Bool-cases (ltb_f (env.now w) live.cooldown_until)) [
    | inl cooling ↦ (done, live, w, rw cooling, stays live)
    | inr due ↦
        let seen = rds.get ib_account_snapshot_key w in
        let (r, live', w', e, c) =
          judge_lem (env.now w) (snapshot_time py seen.0) live seen.1 works in
        (r, live', w', rw (due, e), c)
  ]

  pub check_lem :
      (host_ok : Bool) (live : Live) (w : W) → HashWrites rds → Ends (check host_ok) live w
  unfolding maybe_self_heal_snapshot_stale heal_if on_redis read_self_heal_enabled
  check_lem host_ok live w works =
      let asked = rds.hget ib_gateway_self_heal_key (txt "enabled") w in
      elim (Bool-cases (not settings.self_heal_enabled || not (enabled_of asked.0))) [
        | inl off ↦ (done, live, asked.1, rw off, stays live)
        | inr on ↦ elim (Bool-cases host_ok) [
          | inl up ↦
              let (r, live', w', e, c) = check_snapshot_lem live asked.1 works in
              (r, live', w', rw (on, up, e), c)
          | inr down ↦ (done, live, asked.1, rw (on, down), stays live)
        ]
      ]
