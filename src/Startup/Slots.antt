-- ===== src/Startup/Slots.antt =====
-- What load_settings makes of the slots.
use mathlib.Core.Path.{subst}
use bifrost_platform_plugin.Prelude.{
  ◌<◌, ◌≡◌, refl, Bool, true, false, List, [], ◌∷◌, ◌++◌, map, length, All, All-append, arith,
  Bool-cases, inl, inr, ℤ,
}
use bifrost_platform_plugin.Text.{Text, txt, text_eq}
use bifrost_platform_plugin.Effects.{Outcome, returned, raised}
use bifrost_platform_plugin.Json.{
  Json, null, boolean, integer, number, string, array, object, nil, cons, end, entry, Dict,
  get_json, or_json, truthy, Python,
}
use bifrost_platform_plugin.Connection.{TwsSlotConfig, SlotConnection, new_slot}
use bifrost_platform_plugin.Live.Slots.{AllSound}
use bifrost_platform_plugin.Startup.{
  and_then, id_values, ints_of, ids_field, client_ids_of, port_of, slot_config, ip_of, add_block,
  block_of, add_slot, load_slots,
}

after-returned :
    {A B : Type 0} (r : Outcome A) (f : A → Outcome B) (b : B)
    → and_then r f ≡ returned b
    → (a : A) × (r ≡ returned a) × (f a ≡ returned b)
unfolding and_then
after-returned (returned a) f b h = (a, refl, h)
after-returned (raised e) f b h = cc

-- What holds of a result holds of the value that it is known to be.
holds-returned :
    {A : Type 0} (P : A → Type 0) (a b : A)
    → ◌≡◌ {A = Outcome A} (returned a) (returned b)
    → P a
    → P b
holds-returned P a b h p = let e : a ≡ b = cc in subst P e p

ints_of-given :
    (py : Python) (vs : List Json) (zs : List ℤ)
    → ints_of py vs ≡ returned zs
    → 0 < length vs
    → 0 < length zs
unfolding ints_of
ints_of-given py [] zs h some' = absurd (omega arith)
ints_of-given py (v ∷ vs) zs h some' = ends (py.int_of v) (ints_of py vs) h
  where
    ends :
        (r : Outcome ℤ) (rs : Outcome (List ℤ))
        → (elim r [
          | raised e ↦ raised e
          | returned z ↦ elim rs [ raised e ↦ raised e | returned zs ↦ returned (z ∷ zs) ]
        ])
          ≡ returned zs
        → 0 < length zs
    ends (raised e) rs h = cc
    ends (returned z) (raised e) h = cc
    ends (returned z) (returned ys) h =
        holds-returned (λ l. 0 < length l) (z ∷ ys) zs h (omega arith)

-- A truthy value gives at least one id.
ids-given :
    (v : Json) (vs : List Json) → truthy v ≡ true → id_values v ≡ returned vs → 0 < length vs
unfolding id_values truthy
ids-given null vs t h = cc
ids-given (boolean b) vs t h =
    holds-returned (λ l. 0 < length l) (boolean b ∷ []) vs h (omega arith)
ids-given (integer z) vs t h =
    holds-returned (λ l. 0 < length l) (integer z ∷ []) vs h (omega arith)
ids-given (number x) vs t h = cc
ids-given (string []) vs t h = cc
ids-given (string (c ∷ s)) vs t h = holds-returned (λ l. 0 < length l) _ vs h (omega arith)
ids-given (array nil) vs t h = cc
ids-given (array (cons x xs)) vs t h = holds-returned (λ l. 0 < length l) _ vs h (omega arith)
ids-given (object end) vs t h = cc
ids-given (object (entry k v d)) vs t h = holds-returned (λ l. 0 < length l) _ vs h (omega arith)

or_json-truthy : (a b : Json) → truthy b ≡ true → truthy (or_json a b) ≡ true
unfolding or_json
or_json-truthy a b h = elim (Bool-cases (truthy a)) [
  | inl given ↦ rw given given
  | inr blank ↦ rw blank h
]

client_ids-given :
    (py : Python) (block : Dict) (ids : List ℤ)
    → client_ids_of py block ≡ returned ids
    → 0 < length ids
unfolding client_ids_of ids_field
client_ids-given py block ids h =
    let (vs, read, ints) = after-returned (id_values (ids_field block)) (ints_of py) ids h in
    ints_of-given py vs ids ints (
      ids-given (ids_field block) vs
        (or_json-truthy (get_json (txt "client_ids") null block) _ (unfold truthy in refl)) read)

-- A slot as it is created has a client id to dial with.
IsStartable : TwsSlotConfig → Type 0
IsStartable cfg = 0 < length cfg.client_ids

slot_config-IsStartable :
    (py : Python) (name : Text) (has_md : Bool) (block : Dict) (ip : Text) (cfg : TwsSlotConfig)
    → slot_config py name has_md block ip ≡ returned cfg
    → IsStartable cfg
unfolding slot_config IsStartable
slot_config-IsStartable py name has_md block ip cfg h =
    let (port, read, rest) = after-returned (port_of py block) _ cfg h in
    let (ids, given, made) = after-returned (client_ids_of py block) _ cfg rest in
    holds-returned (λ c. 0 < length c.client_ids) _ cfg made (client_ids-given py block ids given)

add_block-AllStartable :
    (py : Python) (name : Text) (has_md : Bool) (cfgs out : List TwsSlotConfig) (block : Dict)
    → All IsStartable cfgs
    → add_block py name has_md cfgs block ≡ returned out
    → All IsStartable out
unfolding add_block
add_block-AllStartable py name has_md cfgs out [] h e =
    holds-returned (All IsStartable) cfgs out e h
add_block-AllStartable py name has_md cfgs out (field ∷ block) h e =
    elim (Bool-cases (text_eq (ip_of py (field ∷ block)) [])) [
      | inl blank ↦ holds-returned (All IsStartable) cfgs out (rw blank at e) h
      | inr given ↦
          let (cfg, made, ends) =
            after-returned (slot_config py name has_md (field ∷ block) (ip_of py (field ∷ block)))
              (λ cfg. returned (cfgs ++ cfg ∷ [])) out (rw given at e) in
          holds-returned (All IsStartable) (cfgs ++ cfg ∷ []) out ends (
            All-append IsStartable cfgs (cfg ∷ []) h
              (slot_config-IsStartable py name has_md (field ∷ block) _ cfg made, tt))
    ]

add_slot-AllStartable :
    (py : Python) (ib_raw : Dict) (name : Text) (has_md : Bool) (cfgs out : List TwsSlotConfig)
    → All IsStartable cfgs
    → add_slot py ib_raw name has_md cfgs ≡ returned out
    → All IsStartable out
unfolding add_slot
add_slot-AllStartable py ib_raw name has_md cfgs out h e =
    let (block, read, made) =
      after-returned (block_of (get_json name null ib_raw)) (add_block py name has_md cfgs) out e in
    add_block-AllStartable py name has_md cfgs out block h made

-- The slots of LiveGateway at its start, from the configurations.
abbrev pub fresh_slots : List TwsSlotConfig → List (TwsSlotConfig × SlotConnection)
fresh_slots cfgs = map (λ cfg. (cfg, new_slot)) cfgs

fresh-AllSound : (cfgs : List TwsSlotConfig) → All IsStartable cfgs → AllSound (fresh_slots cfgs)
unfolding new_slot IsStartable
fresh-AllSound [] h = tt
fresh-AllSound (cfg ∷ cfgs) h = (
  record { has_session = λ e. cc; not_maintained = λ e. refl; settled = λ e. cc; in_range = h.0 },
  fresh-AllSound cfgs h.1,
)

-- Whatever the configuration holds, where its slots load without an exception the gateway starts
-- with sound slots: each is disconnected and has at least one client id, as the other results on
-- the slots ask for.
pub load_slots-AllSound :
    (py : Python) (ib_raw : Dict) (cfgs : List TwsSlotConfig)
    → load_slots py ib_raw ≡ returned cfgs
    → AllSound (fresh_slots cfgs)
unfolding load_slots
load_slots-AllSound py ib_raw cfgs h =
    let (host, first, second) = after-returned (add_slot py ib_raw (txt "host") true []) _ cfgs h in
    fresh-AllSound cfgs (
      add_slot-AllStartable py ib_raw (txt "secondary") false host cfgs
        (add_slot-AllStartable py ib_raw (txt "host") true [] host tt first) second)
