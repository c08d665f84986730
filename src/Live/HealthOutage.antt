-- ===== src/Live/HealthOutage.antt =====
-- A Redis that refuses its writes, and the health loop.
use bifrost_platform_plugin.Prelude.{
  ℕ, suc, ◌+◌, ◌%◌, ◌≡◌, refl, ap, ◌∙◌, ◌++◌, false, true, ◌==◌, List, ◌∷◌, Option, Bool,
  if◌then◌else◌, ◌&&◌,
}
use bifrost_platform_plugin.Text.{Text, Fields}
use bifrost_platform_plugin.Float.{Float, ltb_f, leb_f, sub_f}
use bifrost_platform_plugin.Effects.{Exn, returned, raised, Io, for_each, ◌>>◌, ◌>>=◌, lift, Env}
use bifrost_platform_plugin.Json.{Dict, Python}
use bifrost_platform_plugin.Redis.{Redis}
use bifrost_platform_plugin.Writer.{
  Writer, mapping_of, is_wrong_type, recover_hash, write_hash, write_ingestor_health,
  write_account_health, write_operator_health, write_plugin_health, health_fields,
}
use bifrost_platform_plugin.RedisKeys.{
  ib_ingester_health_key, ib_account_agent_health_key, ib_operator_health_key,
  ib_gateway_health_prefix,
}
use bifrost_platform_plugin.Operator.Replies.{Encodes}
use bifrost_platform_plugin.Operator.Outage.{RefusesSet}
use bifrost_platform_plugin.Connection.{Tws, TwsSlotConfig, SlotConnection}
use bifrost_platform_plugin.Live.State.{Live, Settings, Gate}
use bifrost_platform_plugin.Live.SelfHeal.{done, check_opt_cache_liveness}
use bifrost_platform_plugin.Live.Health.{
  sync_slots, check_slots, heal_when, watch_opt_cache, write_slot_health, report_operator, report,
  ingestor_fields, account_fields, operator_fields, report_after, health_round, go_on, health_loop,
}

then_raised :
    {W B : Type 0} (m : Io W (Unit {0})) (k : Io W B) (e : Exn) (w : W)
    → (m w).0 ≡ returned tt
    → (k (m w).1).0 ≡ raised e
    → ((m >> k) w).0 ≡ raised e
then_raised m k e w h r = rw h r

first_raised :
    {W B : Type 0} (m : Io W (Unit {0})) (k : Io W B) (e : Exn) (w : W)
    → (m w).0 ≡ raised e
    → ((m >> k) w).0 ≡ raised e
first_raised m k e w h = rw h refl

module _ {W : Type 0} (rds : Redis W) (py : Python) (env : Env W) (tws : Tws W) (wr : Writer)
    (settings : Settings) (e : Exn) (enc : Encodes py) (no_set : RefusesSet rds py env e)
    (no_hset : (key : Text) (fields : Fields) (w : W) → (rds.hset key fields w).0 ≡ raised e)
    (unlike : is_wrong_type e ≡ false) where
  -- The refusal of a hash is passed over.
  write_hash_returns :
      (key : Text) (fields : Dict) (w : W) → (write_hash rds py env key fields w).0 ≡ returned tt
  unfolding write_hash recover_hash
  write_hash_returns key fields w = rw (no_hset key (mapping_of py fields) w, unlike) refl

  ingestor_returns :
      (fields : Dict) (w : W) → (write_ingestor_health rds py env wr fields w).0 ≡ returned tt
  unfolding write_ingestor_health
  ingestor_returns fields w =
      write_hash_returns ib_ingester_health_key (health_fields wr (env.now w) fields) w

  account_returns :
      (fields : Dict) (w : W) → (write_account_health rds py env wr fields w).0 ≡ returned tt
  unfolding write_account_health
  account_returns fields w =
      write_hash_returns ib_account_agent_health_key (health_fields wr (env.now w) fields) w

  operator_returns :
      (live : Live) (w : W) → (report_operator rds py env tws wr settings live w).0 ≡ returned tt
  unfolding report_operator write_operator_health
  operator_returns live w =
      write_hash_returns ib_operator_health_key
        (health_fields wr (env.now w) (operator_fields rds py env tws wr settings (env.now w) live))
        w

  dumped_raises :
      (d : Dict) (key : Text) (ttl : Option ℕ) (w : W)
      → ((lift (py.dumps d) >>= λ body. rds.set key body ttl) w).0 ≡ raised e
  dumped_raises d key ttl w = let (s, dumped) = enc.dumps_text d in rw (dumped, no_set key s ttl w)

  slot_health_raises :
      (slot : TwsSlotConfig × SlotConnection) (w : W)
      → (write_slot_health rds py env tws wr settings slot w).0 ≡ raised e
  unfolding write_slot_health write_plugin_health
  slot_health_raises (cfg, sc) w = dumped_raises _ (ib_gateway_health_prefix ++ cfg.account_id) _ w

  slots_raise :
      (slot : TwsSlotConfig × SlotConnection) (slots : List (TwsSlotConfig × SlotConnection))
      (w : W)
      → (for_each (write_slot_health rds py env tws wr settings) (slot ∷ slots) w).0 ≡ raised e
  unfolding for_each
  slots_raise slot slots w =
      first_raised (write_slot_health rds py env tws wr settings slot)
        (for_each (write_slot_health rds py env tws wr settings) slots) e w
        (slot_health_raises slot w)

  listed_raise :
      (l : List (TwsSlotConfig × SlotConnection)) (slot : TwsSlotConfig × SlotConnection)
      (slots : List (TwsSlotConfig × SlotConnection)) (w : W)
      → l ≡ slot ∷ slots
      → (for_each (write_slot_health rds py env tws wr settings) l w).0 ≡ raised e
  listed_raise l slot slots w h =
      ap (λ x. (for_each (write_slot_health rds py env tws wr settings) x w).0) h
      ∙ slots_raise slot slots w

  report_raises :
      (a b : Bool) (live : Live) (slot : TwsSlotConfig × SlotConnection)
      (slots : List (TwsSlotConfig × SlotConnection)) (w : W)
      → live.slots ≡ slot ∷ slots
      → (report rds py env tws wr settings a b live w).0 ≡ raised e
  unfolding report
  report_raises a b live slot slots w h =
      let told = write_ingestor_health rds py env wr (ingestor_fields a live) in
      let account = write_account_health rds py env wr (account_fields a b live) in
      let operator = report_operator rds py env tws wr settings live in
      let each = for_each (write_slot_health rds py env tws wr settings) live.slots in
      then_raised told (account >> (operator >> each)) e w (ingestor_returns _ w) (
        then_raised account (operator >> each) e _ (account_returns _ _) (
          then_raised operator each e _ (operator_returns live _)
            (listed_raise live.slots slot slots _ h)))

  watched_slots : (g : Gate W) → (watch_opt_cache rds py env tws wr settings g).0.slots ≡ g.0.slots
  unfolding watch_opt_cache check_opt_cache_liveness
  watched_slots (live, w) =
      kept
        (ltb_f settings.opt_cache_stale_warn_sec (sub_f (env.now w) live.opt_cache_progress_at)
          && leb_f settings.opt_cache_stale_warn_sec
              (sub_f (env.now w) live.opt_cache_stale_warned_at))
        _ _ refl refl
    where
      kept :
          (b : Bool) (x y : Float × Live)
          → x.1.slots ≡ live.slots
          → y.1.slots ≡ live.slots
          → (if b then x else y).1.slots ≡ live.slots
      kept true x y h k = h
      kept false x y h k = k

  after_raises :
      (a b : Bool) (g : Gate W) (slot : TwsSlotConfig × SlotConnection)
      (slots : List (TwsSlotConfig × SlotConnection))
      → g.0.slots ≡ slot ∷ slots
      → (report_after rds py env tws wr settings a b done g).0 ≡ raised e
  unfolding report_after
  after_raises a b g slot slots h =
      let v = watch_opt_cache rds py env tws wr settings g in
      rw (report_raises a b v.0 slot slots v.1 (watched_slots g ∙ h)) refl

  synced_given :
      (l : List (TwsSlotConfig × SlotConnection)) (slot : TwsSlotConfig × SlotConnection)
      (slots : List (TwsSlotConfig × SlotConnection)) (w : W)
      → l ≡ slot ∷ slots
      → (first : TwsSlotConfig × SlotConnection) × (more : List (TwsSlotConfig × SlotConnection))
        × ((sync_slots rds py env tws wr settings l w).0 ≡ first ∷ more)
  unfolding sync_slots
  synced_given l (cfg, sc) slots w h =
      (_, _, ap (λ x. (sync_slots rds py env tws wr settings x w).0) h)

  round_raises :
      (tick : ℕ) (live : Live) (w : W) (slot : TwsSlotConfig × SlotConnection)
      (slots : List (TwsSlotConfig × SlotConnection))
      → live.slots ≡ slot ∷ slots
      → (tick % 3 == 0) ≡ false
      → (health_round rds py env tws wr settings tick (live, w)).0 ≡ raised e
  unfolding health_round heal_when check_slots
  round_raises tick live w slot slots h plain =
      let (first, more, given) = synced_given live.slots slot slots w h in
      rw plain (after_raises _ _ _ first more given)

  -- While Redis refuses its writes, SET and HSET, for another reason than a wrong type, a round of
  -- the health loop that does not probe the sessions ends the loop, where the gateway has a slot:
  -- the exception of write_plugin_health leaves it.
  pub health_outage_ends_loop :
      (fuel tick : ℕ) (live : Live) (w : W) (slot : TwsSlotConfig × SlotConnection)
      (slots : List (TwsSlotConfig × SlotConnection))
      → live.slots ≡ slot ∷ slots
      → env.stopped w ≡ false
      → ((tick + 1) % 3 == 0) ≡ false
      → (health_loop rds py env tws wr settings (suc fuel) tick (live, w)).0 ≡ raised e
  unfolding health_loop go_on
  health_outage_ends_loop fuel tick live w slot slots h on plain =
      rw (on, round_raises (tick + 1) live w slot slots h plain) refl
