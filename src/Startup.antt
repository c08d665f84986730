-- ===== src/Startup.antt =====
-- src/bifrost_plugin/ib_gateway/settings.py: the slots and the helpers of load_settings. What
-- yaml.safe_load gives is a parameter, as a value of Json; the environment is a list of texts.
pub mod Slots
pub mod Load
pub mod Start
pub mod Override
pub mod Sources
use bifrost_platform_plugin.Prelude.{
  ℕ, Bool, true, false, not, ◌&&◌, map, List, [], ◌∷◌, ◌++◌, Option, none, some, if◌then◌else◌, ℤ,
  pos,
}
use bifrost_platform_plugin.Text.{
  Text, txt, Fields, strip, upper, lower, text_eq, mem_text, get, split, int_of_text, is_digit,
}
use bifrost_platform_plugin.Effects.{Exn, value_error, other, Outcome, returned, raised}
use bifrost_platform_plugin.Json.{
  Json, null, boolean, integer, number, string, array, object, Items, nil, cons, Entries, end,
  entry, Dict, dict_of, list_of, get_json, or_json, truthy, Python,
}
use bifrost_platform_plugin.OnDemand.{all_digits}
use bifrost_platform_plugin.Connection.{TwsSlotConfig}

unfoldable pub is_yes : Text → Bool
is_yes raw = mem_text (lower (strip raw)) (txt "1" ∷ txt "true" ∷ txt "yes" ∷ txt "on" ∷ [])

unfoldable pub default_bool : Python → Json → Bool
default_bool py (boolean b) = b
default_bool py v = is_yes (py.str_of v)

-- With os.environ.get(env_key) and the default.
unfoldable pub env_bool : Python → Option Text → Json → Bool
env_bool py none default = default_bool py default
env_bool py (some raw) default =
    if text_eq (strip raw) [] then default_bool py default else is_yes raw

abbrev pub tws_ports : List (Text × ℤ)
tws_ports =
    (txt "tws_live", pos 7496)
    ∷ (txt "tws_paper", pos 7497)
    ∷ (txt "gateway_live", pos 4001)
    ∷ (txt "gateway_paper", pos 4002)
    ∷ []

unfoldable pub port_from_type : Text → ℤ
port_from_type port_type = elim (get (strip port_type) tws_ports) [
  | none ↦ pos 7496
  | some port ↦ port
]

-- v or {}, of which `.get` is asked: a truthy value that is no dict has none.
unfoldable pub block_of : Json → Outcome Dict
block_of (object d) = returned (dict_of d)
block_of v =
    if truthy v
    then raised (record { kind = other; message = txt "object has no attribute 'get'" })
    else returned []

-- `for x in cids`, after `isinstance(cids, int)`: the ids as values
unfoldable pub id_values : Json → Outcome (List Json)
id_values null = returned []
id_values (boolean b) = returned (boolean b ∷ [])
id_values (integer z) = returned (integer z ∷ [])
id_values (number x) =
    raised (record { kind = value_error; message = txt "'float' object is not iterable" })
id_values (string s) = returned (chars s)
  where
    chars : Text → List Json
    chars [] = []
    chars (c ∷ s) = string (c ∷ []) ∷ chars s
id_values (array xs) = returned (list_of xs)
id_values (object d) = returned (keys d)
  where
    keys : Entries → List Json
    keys end = []
    keys (entry k v d) = string k ∷ keys d

-- tuple(int(x) for x in cids)
unfoldable pub ints_of : Python → List Json → Outcome (List ℤ)
ints_of py [] = returned []
ints_of py (v ∷ vs) = elim (py.int_of v) [
  | raised e ↦ raised e
  | returned z ↦ elim (ints_of py vs) [ raised e ↦ raised e | returned zs ↦ returned (z ∷ zs) ]
]

-- The next step, or the exception.
unfoldable pub and_then : {A B : Type 0} → Outcome A → (A → Outcome B) → Outcome B
and_then (returned a) f = f a
and_then (raised e) f = raised e

unfoldable pub ids_field : Dict → Json
ids_field block =
    or_json (get_json (txt "client_ids") null block)
      (array (cons (integer (pos 1)) (cons (integer (pos 2)) nil)))

unfoldable pub client_ids_of : Python → Dict → Outcome (List ℤ)
client_ids_of py block = and_then (id_values (ids_field block)) (ints_of py)

unfoldable pub port_of : Python → Dict → Outcome ℤ
port_of py block = py.int_of (
    or_json (get_json (txt "port") null block) (
      integer (
        port_from_type
          (py.str_of (or_json (get_json (txt "port_type") null block) (string (txt "tws_live")))))))

unfoldable pub account_id_of : Python → Text → Dict → Text
account_id_of py name block = strip (
    py.str_of (
      or_json (get_json (txt "account") null block)
        (or_json (get_json (txt "account_id") null block) (string name))))

unfoldable pub has_market_data_of : Text → Bool → Dict → Bool
has_market_data_of name has_md block =
    if text_eq name (txt "host")
    then has_md
    else truthy (get_json (txt "has_market_data") (boolean false) block)

unfoldable pub slot_config : Python → Text → Bool → Dict → Text → Outcome TwsSlotConfig
slot_config py name has_md block ip = and_then (port_of py block) (λ port.
    and_then (client_ids_of py block) (λ ids. returned (record {
      slot = name;
      account_id = account_id_of py name block;
      ip = ip;
      port = port;
      client_ids = ids;
      has_market_data = has_market_data_of name has_md block;
    })))

unfoldable pub ip_of : Python → Dict → Text
ip_of py block = strip (py.str_of (or_json (get_json (txt "ip") null block) (string [])))

-- The configurations with the one of this block, where it has an address; an empty block is passed
-- over.
unfoldable pub add_block :
    Python → Text → Bool → List TwsSlotConfig → Dict → Outcome (List TwsSlotConfig)
add_block py name has_md cfgs [] = returned cfgs
add_block py name has_md cfgs (field ∷ block) =
    if text_eq (ip_of py (field ∷ block)) []
    then returned cfgs
    else and_then (slot_config py name has_md (field ∷ block) (ip_of py (field ∷ block)))
        (λ cfg. returned (cfgs ++ cfg ∷ []))

unfoldable pub add_slot :
    Python → Dict → Text → Bool → List TwsSlotConfig → Outcome (List TwsSlotConfig)
add_slot py ib_raw name has_md cfgs =
    and_then (block_of (get_json name null ib_raw)) (add_block py name has_md cfgs)

-- settings.slots, from raw.get("ib") or {}
unfoldable pub load_slots : Python → Dict → Outcome (List TwsSlotConfig)
load_slots py ib_raw =
    and_then (add_slot py ib_raw (txt "host") true []) (add_slot py ib_raw (txt "secondary") false)

-- int(s) where s.isdigit()
unfoldable pub digits_value : Text → Option ℤ
digits_value [] = none
digits_value (c ∷ s) = if all_digits (c ∷ s) then int_of_text (c ∷ s) else none

unfoldable pub port_or_default : Option ℤ → ℤ
port_or_default none = pos 6379
port_or_default (some port) = port

-- redis_raw.get("port", 6379), where a bool is an int
unfoldable pub port_value : Python → Json → ℤ
port_value py (integer z) = z
port_value py (boolean b) = if b then pos 1 else pos 0
port_value py v = port_or_default (digits_value (strip (py.str_of v)))

-- With os.environ.get("IB_GATEWAY_REDIS_PORT", "").
unfoldable pub resolve_redis_port : Python → Text → Dict → ℤ
resolve_redis_port py explicit redis_raw = elim (digits_value (strip explicit)) [
  | some port ↦ port
  | none ↦ port_value py (get_json (txt "port") (integer (pos 6379)) redis_raw)
]

-- With os.environ.get("IB_GATEWAY_REDIS_HOST", "").
unfoldable pub resolve_redis_host : Python → Text → Dict → Text
resolve_redis_host py explicit redis_raw =
    if text_eq (strip explicit) []
    then py.str_of (
        or_json (get_json (txt "host") null redis_raw)
          (string (txt "redis-ib.data.svc.cluster.local")))
    else strip explicit

-- tuple(s.strip().upper() for s in wl if s.strip())
unfoldable pub clean_symbols : List Text → List Text
clean_symbols [] = []
clean_symbols (s ∷ wl) =
    let rest = clean_symbols wl in if text_eq (strip s) [] then rest else upper (strip s) ∷ rest

-- The symbols of GatewaySettings before the configuration is read.
abbrev pub default_watchlist : List Text
default_watchlist = txt "NVDA" ∷ txt "AAPL" ∷ txt "SPY" ∷ txt "QQQ" ∷ txt "TSLA" ∷ []

unfoldable pub watchlist_of : Python → Json → List Text
watchlist_of py (array xs) = clean_symbols (map py.str_of (list_of xs))
watchlist_of py (string s) =
    if text_eq (strip s) [] then default_watchlist else clean_symbols (split b',' s)
watchlist_of py v = default_watchlist

-- With os.environ.get("IB_GATEWAY_WATCHLIST", "").
unfoldable pub watchlist_symbols : Python → Text → Dict → List Text
watchlist_symbols py env_watchlist raw =
    watchlist_of py (or_json (get_json (txt "watchlist_symbols") null raw) (string env_watchlist))
