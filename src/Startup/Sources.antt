-- ===== src/Startup/Sources.antt =====
-- Where load_settings takes the values of the settings from.
use bifrost_platform_plugin.Prelude.{◌≡◌, refl, true, pos}
use bifrost_platform_plugin.Text.{txt, Fields, get}
use bifrost_platform_plugin.Float.{fin}
use bifrost_platform_plugin.Effects.{Outcome, returned, raised}
use bifrost_platform_plugin.Effects.Returns.{Holds}
use bifrost_platform_plugin.Json.{Json, boolean, integer, number, Dict, get_json, Python}
use bifrost_platform_plugin.Startup.{and_then, env_bool}
use bifrost_platform_plugin.Startup.Load.{GatewaySettings, env_or, load_settings}

-- Where the values of the settings come from.
pub record IsRead (py : Python) (environ : Fields) (raw : Dict) (s : GatewaySettings) : Type 0 where
  pub refresh :
      py.float_of (
        env_or
          (txt "IB_GATEWAY_OPT_CACHE_REFRESH_SEC")
          environ
          (get_json (txt "opt_cache_refresh_sec") (integer (pos 30)) raw))
      ≡ returned s.opt_cache_refresh_sec
  pub pacing :
      py.float_of (
        env_or
          (txt "IB_GATEWAY_OPT_CACHE_PACING_SEC")
          environ
          (get_json (txt "opt_cache_pacing_sec") (number (fin (pos 500000))) raw))
      ≡ returned s.opt_cache_pacing_sec
  pub contracts :
      py.int_of (
        env_or
          (txt "IB_GATEWAY_OPT_CACHE_MAX_CONTRACTS")
          environ
          (get_json (txt "opt_cache_max_contracts") (integer (pos 40)) raw))
      ≡ returned s.opt_cache_max_contracts
  pub opt_age :
      py.float_of (
        env_or
          (txt "IB_GATEWAY_ON_DEMAND_OPT_MAX_AGE_SEC")
          environ
          (get_json (txt "on_demand_opt_max_age_sec") (integer (pos 180)) raw))
      ≡ returned s.on_demand_opt_max_age_sec
  pub one_shot :
      py.float_of (
        env_or
          (txt "IB_GATEWAY_OPT_CACHE_ONE_SHOT_TIMEOUT_SEC")
          environ
          (get_json (txt "opt_cache_one_shot_timeout_sec") (integer (pos 10)) raw))
      ≡ returned s.opt_cache_one_shot_timeout_sec
  pub warn :
      py.float_of (
        env_or
          (txt "IB_GATEWAY_OPT_CACHE_STALE_WARN_SEC")
          environ
          (get_json (txt "opt_cache_stale_warn_sec") (integer (pos 120)) raw))
      ≡ returned s.opt_cache_stale_warn_sec
  pub stale :
      py.float_of (
        env_or
          (txt "IB_GATEWAY_SNAPSHOT_STALE_SEC")
          environ
          (get_json (txt "snapshot_stale_reconnect_sec") (integer (pos 90)) raw))
      ≡ returned s.snapshot_stale_reconnect_sec
  pub rollout :
      py.int_of (
        env_or
          (txt "IB_GATEWAY_SNAPSHOT_STALE_MAX_BEFORE_ROLLOUT")
          environ
          (get_json (txt "snapshot_stale_max_before_rollout") (integer (pos 3)) raw))
      ≡ returned s.snapshot_stale_max_before_rollout
  pub cooldown :
      py.float_of (
        env_or
          (txt "IB_GATEWAY_SOFT_RECONNECT_COOLDOWN_SEC")
          environ
          (get_json (txt "soft_reconnect_cooldown_sec") (integer (pos 60)) raw))
      ≡ returned s.soft_reconnect_cooldown_sec
  pub opt_cache :
      s.opt_cache_enabled
      ≡ env_bool py
          (get (txt "IB_GATEWAY_OPT_CACHE_ENABLED") environ)
          (get_json (txt "opt_cache_enabled") (boolean true) raw)
  pub self_heal :
      s.self_heal_enabled
      ≡ env_bool py
          (get (txt "IB_GATEWAY_SELF_HEAL_ENABLED") environ)
          (get_json (txt "self_heal_enabled") (boolean true) raw)

pub record IsLoaded (py : Python) (environ : Fields) (s : GatewaySettings) : Type 0 where
  pub raw : Dict
  pub read : IsRead py environ raw s

given-Holds :
    {A B : Type 0} (Q : B → Type 0) (r : Outcome A) (f : A → Outcome B)
    → ((a : A) → r ≡ returned a → Holds Q (f a))
    → Holds Q (and_then r f)
unfolding and_then
given-Holds Q (returned a) f h = h a refl
given-Holds Q (raised e) f h = tt

pub load_settings-IsLoaded :
    (py : Python) (environ : Fields) (file : Json)
    → Holds (IsLoaded py environ) (load_settings py environ file)
unfolding load_settings
load_settings-IsLoaded py environ file =
    let Q = IsLoaded py environ in
    given-Holds Q _ _ (λ raw _e. given-Holds Q _ _ (λ mode _e. given-Holds Q _ _ (λ redis_raw _e.
      given-Holds Q _ _ (λ redis_db _e. given-Holds Q _ _ (λ probe _e. given-Holds Q _ _ (λ ttl _e.
        given-Holds Q _ _ (λ age _e. given-Holds Q _ _ (λ stk _e. given-Holds Q _ _ (λ reconcile _e.
          given-Holds Q _ _ (λ refresh refresh_e. given-Holds Q _ _ (λ pacing pacing_e.
            given-Holds Q _ _ (λ contracts contracts_e. given-Holds Q _ _ (λ opt_age opt_age_e.
              given-Holds Q _ _ (λ one_shot one_shot_e. given-Holds Q _ _ (λ warn warn_e.
                given-Holds Q _ _ (λ stale stale_e. given-Holds Q _ _ (λ rollout rollout_e.
                  given-Holds Q _ _ (λ cooldown cooldown_e. given-Holds Q _ _ (λ ib_raw _e.
                    given-Holds Q _ _ (λ slots _e. record {
                      raw = raw;
                      read = record {
                        refresh = refresh_e;
                        pacing = pacing_e;
                        contracts = contracts_e;
                        opt_age = opt_age_e;
                        one_shot = one_shot_e;
                        warn = warn_e;
                        stale = stale_e;
                        rollout = rollout_e;
                        cooldown = cooldown_e;
                        opt_cache = refl;
                        self_heal = refl;
                      };
                    }))))))))))))))))))))
