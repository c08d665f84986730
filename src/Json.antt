-- ===== src/Json.antt =====
-- The JSON values of payloads and results, and what the gateway takes of Python's `json`.
use bifrost_platform_plugin.Prelude.{
  ℕ, ◌+◌, Bool, true, false, List, [], ◌∷◌, Option, none, some, ltb, if◌then◌else◌, ℤ, pos, negsuc,
  not, ◌==◌, map,
}
use bifrost_platform_plugin.Text.{Text, text_eq, get}
use bifrost_platform_plugin.Float.{Float, fin}
use bifrost_platform_plugin.Effects.{Outcome}

mutual
  pub data Json : Type 0 where
    null : Json
    boolean : Bool → Json
    integer : ℤ → Json
    number : Float → Json
    string : Text → Json
    array : Items → Json
    object : Entries → Json

  pub data Items : Type 0 where
    nil : Items
    cons : Json → Items → Items

  pub data Entries : Type 0 where
    end : Entries
    entry : Text → Json → Entries → Entries

-- A Python dict with texts for keys.
abbrev pub Dict : Type 0
Dict = List (Text × Json)

abbrev pub entries_of : Dict → Entries
entries_of [] = end
entries_of ((k, v) ∷ d) = entry k v (entries_of d)

abbrev pub dict_of : Entries → Dict
dict_of end = []
dict_of (entry k v d) = (k, v) ∷ dict_of d

abbrev pub items_of : List Json → Items
items_of [] = nil
items_of (v ∷ vs) = cons v (items_of vs)

abbrev pub list_of : Items → List Json
list_of nil = []
list_of (cons v vs) = v ∷ list_of vs

-- A list of dicts.
abbrev pub dicts : List Dict → Json
dicts ds = array (items_of (map (λ d. object (entries_of d)) ds))

-- x, or None
abbrev pub number_or_null : Option Float → Json
number_or_null none = null
number_or_null (some x) = number x

abbrev is_zero : ℤ → Bool
is_zero (pos n) = n == 0
is_zero (negsuc n) = false

abbrev is_zero_float : Float → Bool
is_zero_float (fin z) = is_zero z
is_zero_float _ = false

-- d[key] = value: a key that is there keeps its place
unfoldable pub put : Text → Json → Dict → Dict
unfolding text_eq
put k v [] = (k, v) ∷ []
put k v ((j, u) ∷ d) = if text_eq k j then (j, v) ∷ d else (j, u) ∷ put k v d

-- {**d, **e}
unfoldable pub merge : Dict → Dict → Dict
unfolding put
merge d [] = d
merge d ((k, v) ∷ e) = merge (put k v d) e

-- len(s.encode("utf-8"))
unfoldable pub utf8_length : Text → ℕ
utf8_length [] = 0
utf8_length (c ∷ s) =
    (if ltb c 0x80 then 1 else if ltb c 0x800 then 2 else if ltb c 0x10000 then 3 else 4)
    + utf8_length s

-- d.get(key, default)
unfoldable pub get_json : Text → Json → Dict → Json
unfolding get
get_json k default d = elim (get k d) [ none ↦ default | some v ↦ v ]

-- bool(v)
unfoldable pub truthy : Json → Bool
truthy null = false
truthy (boolean b) = b
truthy (integer z) = not (is_zero z)
truthy (number x) = not (is_zero_float x)
truthy (string []) = false
truthy (string (c ∷ s)) = true
truthy (array nil) = false
truthy (array (cons x xs)) = true
truthy (object end) = false
truthy (object (entry k v d)) = true

-- a or b
unfoldable pub or_json : Json → Json → Json
unfolding truthy
or_json a b = if truthy a then a else b

-- What the gateway takes of Python for values of any type: json.loads (`none` is a
-- JSONDecodeError), json.dumps with default=str, the same with compact separators, str, int, float
-- and the rounding of a float.
pub record Python : Type 0 where
  pub loads : Text → Option Json
  pub dumps : Dict → Outcome Text
  pub dumps_compact : Dict → Outcome Text
  pub str_of : Json → Text
  pub int_of : Json → Outcome ℤ
  pub float_of : Json → Outcome Float
  -- f"{x:.0f}"
  pub format_0f : Float → Text
  -- round(x, digits)
  pub round_to : ℕ → Float → Float
