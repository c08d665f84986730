-- ===== src/Startup/Override.antt =====
-- The environment variables that load_settings prefers to the file.
use bifrost_platform_plugin.Prelude.{◌≡◌, refl, ◌∙◌, sym, ap, true, false, some, none, [], ◌∷◌, pos}
use bifrost_platform_plugin.Text.{Text, txt, Fields, get, strip, text_eq}
use bifrost_platform_plugin.Float.{fin}
use bifrost_platform_plugin.Effects.{returned}
use bifrost_platform_plugin.Json.{
  Json, boolean, integer, number, string, Dict, get_json, or_json, truthy, Python,
}
use bifrost_platform_plugin.Startup.{env_bool, is_yes}
use bifrost_platform_plugin.Startup.Load.{GatewaySettings, env_text, env_or, load_settings}
use bifrost_platform_plugin.Startup.Sources.{IsRead, IsLoaded, load_settings-IsLoaded}

-- The settings that have an environment variable beside their key in the file.
pub data Override : Type 0 where
  of_refresh of_pacing of_contracts of_opt_age of_one_shot of_warn of_stale of_rollout of_cooldown
        of_opt_cache of_self_heal :
      Override

abbrev pub env_key : Override → Text
env_key of_refresh = txt "IB_GATEWAY_OPT_CACHE_REFRESH_SEC"
env_key of_pacing = txt "IB_GATEWAY_OPT_CACHE_PACING_SEC"
env_key of_contracts = txt "IB_GATEWAY_OPT_CACHE_MAX_CONTRACTS"
env_key of_opt_age = txt "IB_GATEWAY_ON_DEMAND_OPT_MAX_AGE_SEC"
env_key of_one_shot = txt "IB_GATEWAY_OPT_CACHE_ONE_SHOT_TIMEOUT_SEC"
env_key of_warn = txt "IB_GATEWAY_OPT_CACHE_STALE_WARN_SEC"
env_key of_stale = txt "IB_GATEWAY_SNAPSHOT_STALE_SEC"
env_key of_rollout = txt "IB_GATEWAY_SNAPSHOT_STALE_MAX_BEFORE_ROLLOUT"
env_key of_cooldown = txt "IB_GATEWAY_SOFT_RECONNECT_COOLDOWN_SEC"
env_key of_opt_cache = txt "IB_GATEWAY_OPT_CACHE_ENABLED"
env_key of_self_heal = txt "IB_GATEWAY_SELF_HEAL_ENABLED"

-- The value of the setting is what the text says.
abbrev pub Taken : Override → Python → Text → GatewaySettings → Type 0
Taken of_refresh py t s = py.float_of (string t) ≡ returned s.opt_cache_refresh_sec
Taken of_pacing py t s = py.float_of (string t) ≡ returned s.opt_cache_pacing_sec
Taken of_contracts py t s = py.int_of (string t) ≡ returned s.opt_cache_max_contracts
Taken of_opt_age py t s = py.float_of (string t) ≡ returned s.on_demand_opt_max_age_sec
Taken of_one_shot py t s = py.float_of (string t) ≡ returned s.opt_cache_one_shot_timeout_sec
Taken of_warn py t s = py.float_of (string t) ≡ returned s.opt_cache_stale_warn_sec
Taken of_stale py t s = py.float_of (string t) ≡ returned s.snapshot_stale_reconnect_sec
Taken of_rollout py t s = py.int_of (string t) ≡ returned s.snapshot_stale_max_before_rollout
Taken of_cooldown py t s = py.float_of (string t) ≡ returned s.soft_reconnect_cooldown_sec
Taken of_opt_cache py t s = s.opt_cache_enabled ≡ is_yes t
Taken of_self_heal py t s = s.self_heal_enabled ≡ is_yes t

env_text_set :
    (key t : Text) (environ : Fields) → get key environ ≡ some t → env_text key environ ≡ t
unfolding env_text
env_text_set key t environ set = ap (λ found. elim found [ none ↦ [] | some raw ↦ raw ]) set

or_json_filled :
    (t : Text) (value : Json) → text_eq (strip t) [] ≡ false → or_json (string t) value ≡ string t
unfolding or_json truthy strip text_eq
or_json_filled [] value given = cc
or_json_filled (c ∷ t) value given = refl

env_or_set :
    (key t : Text) (environ : Fields) (value : Json)
    → get key environ ≡ some t
    → text_eq (strip t) [] ≡ false
    → env_or key environ value ≡ string t
unfolding env_or
env_or_set key t environ value set given =
    ap (λ x. or_json (string x) value) (env_text_set key t environ set)
    ∙ or_json_filled t value given

env_bool_set :
    (py : Python) (t : Text) (value : Json)
    → text_eq (strip t) [] ≡ false
    → env_bool py (some t) value ≡ is_yes t
unfolding env_bool
env_bool_set py t value given = rw given refl

IsRead-Taken :
    (o : Override) (t : Text) (environ : Fields) (py : Python) (raw : Dict) (s : GatewaySettings)
    → get (env_key o) environ ≡ some t
    → text_eq (strip t) [] ≡ false
    → IsRead py environ raw s
    → Taken o py t s
IsRead-Taken of_refresh t environ py raw s set given l =
    let e =
      env_or_set (env_key of_refresh) t environ
        (get_json (txt "opt_cache_refresh_sec") (integer (pos 30)) raw) set given in
    sym (ap py.float_of e) ∙ l.refresh
IsRead-Taken of_pacing t environ py raw s set given l =
    let e =
      env_or_set (env_key of_pacing) t environ
        (get_json (txt "opt_cache_pacing_sec") (number (fin (pos 500000))) raw) set given in
    sym (ap py.float_of e) ∙ l.pacing
IsRead-Taken of_contracts t environ py raw s set given l =
    let e =
      env_or_set (env_key of_contracts) t environ
        (get_json (txt "opt_cache_max_contracts") (integer (pos 40)) raw) set given in
    sym (ap py.int_of e) ∙ l.contracts
IsRead-Taken of_opt_age t environ py raw s set given l =
    let e =
      env_or_set (env_key of_opt_age) t environ
        (get_json (txt "on_demand_opt_max_age_sec") (integer (pos 180)) raw) set given in
    sym (ap py.float_of e) ∙ l.opt_age
IsRead-Taken of_one_shot t environ py raw s set given l =
    let e =
      env_or_set (env_key of_one_shot) t environ
        (get_json (txt "opt_cache_one_shot_timeout_sec") (integer (pos 10)) raw) set given in
    sym (ap py.float_of e) ∙ l.one_shot
IsRead-Taken of_warn t environ py raw s set given l =
    let e =
      env_or_set (env_key of_warn) t environ
        (get_json (txt "opt_cache_stale_warn_sec") (integer (pos 120)) raw) set given in
    sym (ap py.float_of e) ∙ l.warn
IsRead-Taken of_stale t environ py raw s set given l =
    let e =
      env_or_set (env_key of_stale) t environ
        (get_json (txt "snapshot_stale_reconnect_sec") (integer (pos 90)) raw) set given in
    sym (ap py.float_of e) ∙ l.stale
IsRead-Taken of_rollout t environ py raw s set given l =
    let e =
      env_or_set (env_key of_rollout) t environ
        (get_json (txt "snapshot_stale_max_before_rollout") (integer (pos 3)) raw) set given in
    sym (ap py.int_of e) ∙ l.rollout
IsRead-Taken of_cooldown t environ py raw s set given l =
    let e =
      env_or_set (env_key of_cooldown) t environ
        (get_json (txt "soft_reconnect_cooldown_sec") (integer (pos 60)) raw) set given in
    sym (ap py.float_of e) ∙ l.cooldown
IsRead-Taken of_opt_cache t environ py raw s set given l =
    l.opt_cache
    ∙ ap (λ o. env_bool py o (get_json (txt "opt_cache_enabled") (boolean true) raw)) set
    ∙ env_bool_set py t (get_json (txt "opt_cache_enabled") (boolean true) raw) given
IsRead-Taken of_self_heal t environ py raw s set given l =
    l.self_heal
    ∙ ap (λ o. env_bool py o (get_json (txt "self_heal_enabled") (boolean true) raw)) set
    ∙ env_bool_set py t (get_json (txt "self_heal_enabled") (boolean true) raw) given

-- Where the settings load and one of the environment variables is set to a text that is not blank,
-- its setting is what this text says, as a number or as a yes, whatever the file holds.
pub environment_wins :
    (o : Override) (t : Text) (environ : Fields) (py : Python) (file : Json) (s : GatewaySettings)
    → load_settings py environ file ≡ returned s
    → get (env_key o) environ ≡ some t
    → text_eq (strip t) [] ≡ false
    → Taken o py t s
environment_wins o t environ py file s loaded set given =
    let h = load_settings-IsLoaded py environ file in
    let l : IsLoaded py environ s = rw loaded at h in
    IsRead-Taken o t environ py l.raw s set given l.read
