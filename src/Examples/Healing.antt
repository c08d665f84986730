-- ===== src/Examples/Healing.antt =====
-- A gateway with one slot and a snapshot that stays stale.
use bifrost_platform_plugin.Prelude.{
  ℕ, ◌+◌, ◌≤◌, ◌≡◌, ◌⊎◌, inl, inr, refl, [], ◌∷◌, true, false, none, some, pos,
}
use bifrost_platform_plugin.Text.{txt, text_eq, get}
use bifrost_platform_plugin.Float.{fin, zero_f, add_f, sub_f, leb_f}
use bifrost_platform_plugin.Effects.{Exn, response_error, returned, raised}
use bifrost_platform_plugin.Json.{string, Python, entry, end, object, get_json}
use bifrost_platform_plugin.Redis.{Redis}
use bifrost_platform_plugin.Writer.{Writer, enabled_of}
use bifrost_platform_plugin.Live.State.{Live, Settings}
use bifrost_platform_plugin.Live.SelfHeal.{
  Healed, done, snapshot_time, snapshot_field, updated_of, read_or_none,
}
use bifrost_platform_plugin.Live.Heal.{HashWrites, check}
use bifrost_platform_plugin.Live.Visits.{Reconnected}
use bifrost_platform_plugin.Live.Ladder.{
  start, gated_check_stays, exit_comes_late, stale_check_reconnects,
}
use bifrost_platform_plugin.Examples.Doubles.{still, codec}
use bifrost_platform_plugin.Examples.Slots.{accepting, host_cfg, fresh_conn}

abbrev pub writer : Writer
writer = record { env = txt "dev"; account_version = 0; git_sha = txt "abc" }

abbrev wrong_type : Exn
wrong_type = record { kind = response_error; message = txt "WRONGTYPE Operation against a key" }

abbrev misfit : Redis ℕ
misfit = record {
  set = λ key value ttl w. (returned tt, w);
  get = λ key w. (returned (some (txt "{}")), w);
  delete = λ key w. (returned tt, w);
  publish = λ channel message w. (returned tt, w);
  smembers = λ key w. (returned [], w);
  sadd = λ key members w. (returned tt, w);
  srem = λ key members w. (returned tt, w);
  hgetall = λ key w. (returned [], w);
  hget = λ key field w. (returned none, w);
  hset = λ key fields w. (raised wrong_type, w);
  hdel = λ key fields w. (returned tt, w);
  xack = λ stream group entry w. (returned tt, w);
  xgroup_create = λ stream group w. (returned tt, w);
  xreadgroup = λ group consumer names count block w. (returned [], w);
  pipeline = λ commands w. (returned tt, w);
}

-- The reads of Redis answer, and HSET does.
abbrev pub healthy : Redis ℕ
healthy = record misfit { hset = λ key fields w. (returned tt, w) }

-- Its snapshots carry the time 0.
abbrev dated : Python
dated = record codec {
  loads = λ s. some (object (entry (txt "updated_at") (string (txt "0")) end));
}

abbrev pub settings : Settings
settings = record {
  self_heal_enabled = true;
  snapshot_stale_reconnect_sec = fin (pos 600000);
  snapshot_stale_max_before_rollout = 1;
  soft_reconnect_cooldown_sec = fin (pos 50);
  opt_cache_stale_warn_sec = zero_f;
}

abbrev pub one_slot : Live
one_slot = record {
  slots = (host_cfg, fresh_conn) ∷ [];
  cmd_count = 0;
  tickers = txt "SPY" ∷ [];
  stale_streak = 0;
  cooldown_until = zero_f;
  opt_cache_progress_at = zero_f;
  opt_cache_stale_warned_at = zero_f;
}

healthy_writes : HashWrites healthy
healthy_writes key fields w = refl

gated_check_stays_example :
    check healthy dated still accepting writer settings false (one_slot, 0)
    ≡ (returned done, (one_slot, 0))
gated_check_stays_example =
    gated_check_stays healthy dated still accepting writer settings false one_slot 0
      (inr (inr (inl refl)))

exit_comes_late_example :
    (r : Healed) × (live' : Live) × (w' : ℕ) × (check healthy dated still accepting writer settings
        true
        (one_slot, 0)
      ≡ (returned r, (live', w')))
    × ((r ≡ done) ⊎ (1 ≤ 0 + 1))
exit_comes_late_example =
    exit_comes_late healthy dated still accepting writer settings true 0 healthy_writes (start refl)

switched_on : enabled_of (returned none) ≡ true
unfolding enabled_of
switched_on = refl

snapshot_dated : snapshot_time dated (returned (some (txt "{}"))) ≡ some (fin (pos 0))
unfolding snapshot_time snapshot_field updated_of read_or_none get_json get text_eq
snapshot_dated = refl

snapshot_old : leb_f (sub_f (fin (pos 1000000)) (fin (pos 0))) (fin (pos 600000)) ≡ false
unfolding sub_f
snapshot_old = refl

stale_check_reconnects_example :
    (r : Healed) × (live' : Live) × (w1 w' : ℕ) × (check healthy dated still accepting writer
        settings true
        (one_slot, 0)
      ≡ (returned r, (live', w')))
    × (live'.stale_streak ≡ 0 + 1)
    × (live'.cooldown_until ≡ add_f (fin (pos 1000000)) (fin (pos 50)))
    × (live'.tickers ≡ [])
    × Reconnected accepting one_slot.slots w1 live'.slots
stale_check_reconnects_example =
    stale_check_reconnects healthy dated still accepting writer settings one_slot 0 (fin (pos 0))
      healthy_writes refl switched_on refl snapshot_dated snapshot_old
