-- ===== src/Examples/Startup.antt =====
-- A configuration with one slot, read by a Python that reads numbers and texts.
use bifrost_platform_plugin.Prelude.{◌*◌, ◌≡◌, refl, true, false, some, [], ◌∷◌, pos, negsuc}
use bifrost_platform_plugin.Text.{
  Fields, txt, mem_text, get, text_eq, strip, lower, lstrip, is_space,
}
use bifrost_platform_plugin.Float.{fin}
use bifrost_platform_plugin.Effects.{value_error, Outcome, returned, raised}
use bifrost_platform_plugin.Json.{
  Json, integer, number, string, object, entry, end, get_json, truthy, or_json, Python,
}
use bifrost_platform_plugin.Connection.{TwsSlotConfig}
use bifrost_platform_plugin.Startup.{
  and_then, add_slot, block_of, add_block, ip_of, slot_config, port_of, port_from_type,
  client_ids_of, ids_field, id_values, ints_of, account_id_of, has_market_data_of, load_slots,
  env_bool, is_yes, default_bool, resolve_redis_port, resolve_redis_host, digits_value, port_value,
  watchlist_symbols, watchlist_of,
}
use bifrost_platform_plugin.Startup.Load.{
  GatewaySettings, default_settings, env_text, env_json, env_or, mode_of, password_of,
  load_settings,
}
use bifrost_platform_plugin.Startup.Override.{of_self_heal, environment_wins}
use bifrost_platform_plugin.Examples.Doubles.{codec}

abbrev no_number : {A : Type 0} → Outcome A
no_number = raised (record { kind = value_error; message = txt "not a number" })

abbrev pub reader : Python
reader = record codec {
  int_of = λ v. elim v [ integer z ↦ returned z | _ ↦ no_number ];
  float_of = λ v. elim v [
    | integer z ↦ elim z [ pos n ↦ returned (fin (pos (n * 1000000))) | negsuc n ↦ no_number ]
    | number x ↦ returned x
    | _ ↦ no_number
  ];
  str_of = λ v. elim v [ string s ↦ s | _ ↦ txt "v" ];
}

-- A host with an address, and no other slot.
abbrev pub host_file : Json
host_file = object (
    entry (txt "ib")
      (object (entry (txt "host") (object (entry (txt "ip") (string (txt "10.0.0.1")) end)) end))
      end)

abbrev pub loaded_cfg : TwsSlotConfig
loaded_cfg = record {
  slot = txt "host";
  account_id = txt "host";
  ip = txt "10.0.0.1";
  port = pos 7496;
  client_ids = pos 1 ∷ pos 2 ∷ [];
  has_market_data = true;
}

abbrev pub loaded : GatewaySettings
loaded = record default_settings { slots = loaded_cfg ∷ [] }

pub file_loads : load_settings reader [] host_file ≡ returned loaded
unfolding load_settings and_then block_of env_text env_json env_or mode_of password_of env_bool
    default_bool resolve_redis_port resolve_redis_host digits_value port_value watchlist_symbols
    watchlist_of load_slots add_slot add_block get_json or_json truthy strip lower lstrip is_space
    get text_eq ip_of slot_config port_of port_from_type client_ids_of ids_field id_values ints_of
    account_id_of has_market_data_of
file_loads = refl

-- The file asks for the self-healing that an environment variable switches off.
abbrev healing_file : Json
healing_file = object (entry (txt "self_heal_enabled") (string (txt "yes")) end)

abbrev healing_off : Fields
healing_off = (txt "IB_GATEWAY_SELF_HEAL_ENABLED", txt " off ") ∷ []

healing_off_loads :
    load_settings reader healing_off healing_file
    ≡ returned (record default_settings { self_heal_enabled = false })
unfolding load_settings and_then block_of env_text env_json env_or mode_of password_of env_bool
    default_bool resolve_redis_port resolve_redis_host digits_value port_value watchlist_symbols
    watchlist_of load_slots add_slot add_block get_json or_json truthy strip lower lstrip is_space
    get text_eq mem_text is_yes
healing_off_loads = refl

is_set : get (txt "IB_GATEWAY_SELF_HEAL_ENABLED") healing_off ≡ some (txt " off ")
unfolding get text_eq
is_set = refl

is_filled : text_eq (strip (txt " off ")) [] ≡ false
unfolding text_eq strip lstrip is_space
is_filled = refl

environment_wins_example : false ≡ is_yes (txt " off ")
environment_wins_example =
    environment_wins of_self_heal (txt " off ") healing_off reader healing_file
      (record default_settings { self_heal_enabled = false }) healing_off_loads is_set is_filled
