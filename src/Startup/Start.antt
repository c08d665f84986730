-- ===== src/Startup/Start.antt =====
-- The slots of the gateway that load_settings gives.
use bifrost_platform_plugin.Prelude.{◌≡◌, refl}
use bifrost_platform_plugin.Text.{Fields}
use bifrost_platform_plugin.Effects.{Outcome, returned, raised}
use bifrost_platform_plugin.Effects.Returns.{Holds}
use bifrost_platform_plugin.Json.{Json, Python}
use bifrost_platform_plugin.Live.Slots.{AllSound}
use bifrost_platform_plugin.Startup.{and_then, load_slots}
use bifrost_platform_plugin.Startup.Slots.{fresh_slots, load_slots-AllSound}
use bifrost_platform_plugin.Startup.Load.{GatewaySettings, load_settings}

abbrev StartsSound : Outcome GatewaySettings → Type 0
StartsSound = Holds (λ s. AllSound (fresh_slots s.slots))

onwards-Sound :
    {A : Type 0} (r : Outcome A) (f : A → Outcome GatewaySettings)
    → ((a : A) → StartsSound (f a))
    → StartsSound (and_then r f)
unfolding and_then
onwards-Sound (returned a) f h = h a
onwards-Sound (raised e) f h = tt

then-Sound :
    {A : Type 0} (r : Outcome A) (f : A → Outcome GatewaySettings)
    → ((a : A) → r ≡ returned a → StartsSound (f a))
    → StartsSound (and_then r f)
unfolding and_then
then-Sound (returned a) f h = h a refl
then-Sound (raised e) f h = tt

load_settings-StartsSound :
    (py : Python) (environ : Fields) (file : Json) → StartsSound (load_settings py environ file)
unfolding load_settings
load_settings-StartsSound py environ file = onwards-Sound _ _ (λ raw. onwards-Sound _ _ (λ mode.
    onwards-Sound _ _ (λ redis_raw. onwards-Sound _ _ (λ db. onwards-Sound _ _ (λ probe.
      onwards-Sound _ _ (λ ttl. onwards-Sound _ _ (λ age. onwards-Sound _ _ (λ stk.
        onwards-Sound _ _ (λ reconcile. onwards-Sound _ _ (λ refresh. onwards-Sound _ _ (λ pacing.
          onwards-Sound _ _ (λ contracts. onwards-Sound _ _ (λ opt_age.
            onwards-Sound _ _ (λ timeout. onwards-Sound _ _ (λ warn. onwards-Sound _ _ (λ stale.
              onwards-Sound _ _ (λ rollouts. onwards-Sound _ _ (λ cooldown.
                onwards-Sound _ _ (λ ib_raw.
                  then-Sound (load_slots py ib_raw) _
                    (λ slots e. load_slots-AllSound py ib_raw slots e))))))))))))))))))))

-- Settings that load give the gateway sound slots.
pub load_settings-AllSound :
    (py : Python) (environ : Fields) (file : Json) (s : GatewaySettings)
    → load_settings py environ file ≡ returned s
    → AllSound (fresh_slots s.slots)
load_settings-AllSound py environ file s e =
    let h = load_settings-StartsSound py environ file in rw e at h
