-- ===== src/Live/Orders.antt =====
-- _refresh_order_reads: the cached open orders and executions.
use bifrost_platform_plugin.Prelude.{
  ℕ, ◌≡◌, refl, ◌⊎◌, inl, inr, Bool, true, false, ◌&&◌, List, [], ◌∷◌, ◌++◌, Option, none, some,
  Bool-cases, if◌then◌else◌, pos,
}
use bifrost_platform_plugin.Float.{Float, fin, ltb_f, sub_f, zero_f}
use bifrost_platform_plugin.Effects.{Exn, Outcome, returned, raised, Io, pure, ◌>>=◌, Env}
use bifrost_platform_plugin.Json.{Dict}
use bifrost_platform_plugin.Connection.{TwsSlotConfig, SlotConnection, is_connected_state}

-- The four fields of LiveGateway for the order reads.
pub record OrderCache : Type 0 where
  pub open_orders : Option (List Dict)
  pub open_orders_at : Float
  pub executions : Option (List Dict)
  pub executions_at : Float

-- The reads of one session, each within its timeout: fetch_open_orders and fetch_executions.
pub record OrderReads (W : Type 0) : Type 0 where
  pub orders : ℕ → Io W (List Dict)
  pub fills : ℕ → Io W (List Dict)

unfoldable pub is_given : {A : Type 0} → Option A → Bool
is_given none = false
is_given (some a) = true

abbrev pub minute : Float
minute = fin (pos 60000000)

unfoldable pub is_recent : Float → OrderCache → Bool
is_recent now c = ltb_f (sub_f now c.open_orders_at) minute && is_given c.open_orders

-- From the `except` on: the cache after the reads, which give the orders, the fills, and whether
-- there was a slot to read.
unfoldable pub store_reads :
    Float → Outcome (List Dict × List Dict × Bool) → OrderCache → OrderCache
store_reads now (raised e) c = record {
  open_orders = none;
  open_orders_at = zero_f;
  executions = none;
  executions_at = zero_f;
}
store_reads now (returned (orders, fills, false)) c = record c {
  open_orders = none;
  executions = none;
}
store_reads now (returned (orders, fills, true)) c = record {
  open_orders = some orders;
  open_orders_at = now;
  executions = some fills;
  executions_at = now;
}

module _ {W : Type 0} (reads : OrderReads W) (env : Env W) where
  -- The loop over the slots.
  unfoldable pub read_slots :
      List (TwsSlotConfig × SlotConnection) → Io W (List Dict × List Dict × Bool)
  read_slots [] = pure ([], [], false)
  read_slots ((cfg, sc) ∷ slots) =
      let rest = read_slots slots in
      elim sc.ib [
        | none ↦ rest
        | some ib ↦
            if is_connected_state sc.state
            then (reads.orders ib >>= λ orders. reads.fills ib >>= λ fills.
                rest >>= λ more. pure (orders ++ more.0, fills ++ more.1, true))
            else rest
      ]

  unfoldable pub refresh_order_reads :
      List (TwsSlotConfig × SlotConnection) → OrderCache → W → OrderCache × W
  refresh_order_reads slots c w =
      let r = read_slots slots w in
      if is_recent (env.now w) c then (c, w) else (store_reads (env.now w) r.0 c, r.1)

  -- The two caches are filled or empty together.
  abbrev pub Agrees : OrderCache → Type 0
  Agrees c = is_given c.open_orders ≡ is_given c.executions

  store_reads-Agrees :
      (now : Float) (r : Outcome (List Dict × List Dict × Bool)) (c : OrderCache)
      → Agrees (store_reads now r c)
  unfolding store_reads is_given
  store_reads-Agrees now (raised e) c = refl
  store_reads-Agrees now (returned (orders, fills, false)) c = refl
  store_reads-Agrees now (returned (orders, fills, true)) c = refl

  -- Refreshing keeps the two caches filled or empty together, whatever the reads give.
  pub refresh_order_reads-Agrees :
      (slots : List (TwsSlotConfig × SlotConnection)) (c : OrderCache) (w : W)
      → Agrees c
      → Agrees (refresh_order_reads slots c w).0
  unfolding refresh_order_reads
  refresh_order_reads-Agrees slots c w h = elim (Bool-cases (is_recent (env.now w) c)) [
    | inl recent ↦ rw recent h
    | inr old ↦ rw old (store_reads-Agrees (env.now w) (read_slots slots w).0 c)
  ]

  -- Where a read raises and the cache is not recent, the refresh empties both caches, so that
  -- neither is published; otherwise a cache of less than a minute is kept as it is.
  pub failed_reads_clear :
      (slots : List (TwsSlotConfig × SlotConnection)) (c : OrderCache) (w : W) (e : Exn)
      → (read_slots slots w).0 ≡ raised e
      → ((is_recent (env.now w) c ≡ true) × ((refresh_order_reads slots c w).0 ≡ c))
        ⊎ (((refresh_order_reads slots c w).0.open_orders ≡ none)
            × ((refresh_order_reads slots c w).0.executions ≡ none))
  unfolding refresh_order_reads store_reads
  failed_reads_clear slots c w e h = elim (Bool-cases (is_recent (env.now w) c)) [
    | inl recent ↦ inl (recent, rw recent refl)
    | inr old ↦ inr (rw (old, h) refl, rw (old, h) refl)
  ]
