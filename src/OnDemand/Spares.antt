-- ===== src/OnDemand/Spares.antt =====
-- What the listing of the fresh registrations leaves as it is.
use bifrost_platform_plugin.Prelude.{refl, ◌∙◌, List, [], ◌∷◌, Option}
use bifrost_platform_plugin.Text.{Text}
use bifrost_platform_plugin.Float.{Float}
use bifrost_platform_plugin.Effects.Keep.{Keeps, Keeps-bind}
use bifrost_platform_plugin.Redis.{Redis, PipeCommand}
use bifrost_platform_plugin.OnDemand.Keep.{prune, list_members, list_fresh, or_empty}

-- What the gateway does in Redis leaves this part of the world as it is.
pub record Spares {W L : Type 0} (rds : Redis W) (view : W → L) : Type 0 where
  pub smembers_spares : (key : Text) → Keeps view (rds.smembers key)
  pub hgetall_spares : (key : Text) → Keeps view (rds.hgetall key)
  pub srem_spares : (key : Text) (xs : List Text) → Keeps view (rds.srem key xs)
  pub hdel_spares : (key : Text) (xs : List Text) → Keeps view (rds.hdel key xs)
  pub pipeline_spares : (cs : List PipeCommand) → Keeps view (rds.pipeline cs)

module _ {W L : Type 0} (rds : Redis W) (view : W → L) (spared : Spares rds view) where
  prune-Keeps :
      (set_key ts_key : Text) (stale : List Text) → Keeps view (prune rds set_key ts_key stale)
  unfolding prune
  prune-Keeps set_key ts_key [] w = refl
  prune-Keeps set_key ts_key (name ∷ stale) w =
      Keeps-bind view (rds.srem set_key (name ∷ stale)) _
        (spared.srem_spares set_key (name ∷ stale))
        (λ done. spared.hdel_spares ts_key (name ∷ stale)) w

  list_members-Keeps :
      (read_float : Text → Option Float) (clean : Text → Text) (set_key ts_key : Text)
      (max_age now : Float) (members : List Text)
      → Keeps view (list_members rds set_key ts_key read_float clean max_age now members)
  unfolding list_members
  list_members-Keeps read_float clean set_key ts_key max_age now [] v = refl
  list_members-Keeps read_float clean set_key ts_key max_age now (m ∷ members) v =
      Keeps-bind view (prune rds set_key ts_key _) _ (prune-Keeps set_key ts_key _) (λ done w. refl)
        (rds.hgetall ts_key v).1
      ∙ spared.hgetall_spares ts_key v

  pub list_fresh-Keeps :
      (read_float : Text → Option Float) (clean : Text → Text) (set_key ts_key : Text)
      (max_age now : Float)
      → Keeps view (list_fresh read_float clean rds set_key ts_key max_age now)
  unfolding list_fresh
  list_fresh-Keeps read_float clean set_key ts_key max_age now w =
      list_members-Keeps read_float clean set_key ts_key max_age now
        (or_empty (rds.smembers set_key w).0) (rds.smembers set_key w).1
      ∙ spared.smembers_spares set_key w
