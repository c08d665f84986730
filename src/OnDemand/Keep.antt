-- ===== src/OnDemand/Keep.antt =====
-- What the two modules share: a registered name is fresh or stale by its heartbeat, and stale
-- names are pruned.
use bifrost_platform_plugin.Prelude.{Bool, ◌&&◌, List, [], ◌∷◌, Option, none, some, if◌then◌else◌}
use bifrost_platform_plugin.Text.{Text, Fields, strip, upper, text_eq, get, sort_text}
use bifrost_platform_plugin.Float.{Float, ltb_f, leb_f, sub_f, zero_f}
use bifrost_platform_plugin.Effects.{Outcome, returned, raised, Io, pure, attempt, ◌>>=◌, ◌>>◌}
use bifrost_platform_plugin.Redis.{Redis}

-- str(raw or "").strip().upper()
unfoldable pub clean_symbol : Text → Text
clean_symbol raw = upper (strip raw)

-- str(raw or "").strip()
unfoldable pub clean_key : Text → Text
clean_key raw = strip raw

unfoldable pub or_zero : Option Float → Float
or_zero none = zero_f
or_zero (some x) = x

-- The heartbeat of a name: 0.0 where there is none, or none that is a number.
unfoldable pub heartbeat : (Text → Option Float) → Fields → Text → Float
heartbeat read_float ts_map name = elim (get name ts_map) [
  | none ↦ zero_f
  | some raw_ts ↦ or_zero (read_float raw_ts)
]

-- last > 0 and (ts_now - last) <= max_age
unfoldable pub is_fresh : Float → Float → Float → Bool
is_fresh now max_age last = ltb_f zero_f last && leb_f (sub_f now last) max_age

pub record Swept : Type 0 where
  pub fresh : List Text
  pub stale : List Text

-- The loop over the members; `clean` brings a member to its normal form.
unfoldable pub sweep :
    (Text → Option Float) → (Text → Text) → Fields → Float → Float → List Text → Swept
sweep read_float clean ts_map now max_age [] = record { fresh = []; stale = [] }
sweep read_float clean ts_map now max_age (raw ∷ members) =
    let rest = sweep read_float clean ts_map now max_age members in
    let name = clean raw in
    if text_eq name []
    then rest
    else if is_fresh now max_age (heartbeat read_float ts_map name)
    then record rest { fresh = name ∷ rest.fresh }
    else record rest { stale = name ∷ rest.stale }

unfoldable pub or_empty : {A : Type 0} → Outcome (List A) → List A
or_empty (returned xs) = xs
or_empty (raised e) = []

module _ {W : Type 0} (rds : Redis W) (set_key ts_key : Text) where
  -- `if stale: try: srem; hdel`
  unfoldable pub prune : List Text → Io W (Unit {0})
  prune [] = pure tt
  prune (name ∷ stale) = do
    attempt (rds.srem set_key (name ∷ stale) >> rds.hdel ts_key (name ∷ stale)) >>= λ r. pure tt

  unfoldable pub list_members :
      (Text → Option Float) → (Text → Text) → Float → Float → List Text → Io W (List Text)
  list_members read_float clean max_age now [] = pure []
  list_members read_float clean max_age now (m ∷ members) = do
    ts_map ← attempt (rds.hgetall ts_key)
    let swept = sweep read_float clean (or_empty ts_map) now max_age (m ∷ members)
    prune swept.stale
    pure (sort_text swept.fresh)

unfoldable pub list_fresh :
    {W : Type 0}
    → (Text → Option Float)
    → (Text → Text)
    → Redis W
    → Text
    → Text
    → Float
    → Float
    → Io W (List Text)
list_fresh read_float clean rds set_key ts_key max_age now = do
  members ← attempt (rds.smembers set_key)
  list_members rds set_key ts_key read_float clean max_age now (or_empty members)
