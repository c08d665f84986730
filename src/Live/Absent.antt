-- ===== src/Live/Absent.antt =====
-- The keys that a snapshot leaves out where the order reads failed.
use bifrost_platform_plugin.Prelude.{
  ℕ, ◌≡◌, refl, ◌⊎◌, inl, inr, true, false, List, [], ◌∷◌, ◌++◌, Option, none, some, Bool-cases,
}
use bifrost_platform_plugin.Text.{txt, text_eq, get}
use bifrost_platform_plugin.Effects.{Exn, Outcome, returned, raised, Io, continue_with, ◌>>=◌, Env}
use bifrost_platform_plugin.Json.{Dict}
use bifrost_platform_plugin.Connection.{TwsSlotConfig, SlotConnection, is_connected_state}
use bifrost_platform_plugin.Live.State.{Live}
use bifrost_platform_plugin.Live.Orders.{
  OrderCache, OrderReads, is_recent, read_slots, refresh_order_reads, store_reads,
}
use bifrost_platform_plugin.Live.Market.{snapshot_body}

-- The action raises in every world.
abbrev pub Raises : {W A : Type 0} → Io W A → Type 0
Raises m = (w : _) → (e : Exn) × ((m w).0 ≡ raised e)

module _ {W A B : Type 0} where
  Raises-first : (m : Io W A) (f : A → Io W B) → Raises m → Raises (m >>= f)
  Raises-first m f h w = let (e, failed) = h w in (e, rw failed refl)

  continue-Raises :
      (f : A → Io W B) (r : Outcome A) (v : W)
      → ((a : A) → Raises (f a))
      → (e : Exn) × ((continue_with f r v).0 ≡ raised e)
  continue-Raises f (returned a) v h = h a v
  continue-Raises f (raised e) v h = (e, refl)

  Raises-then : (m : Io W A) (f : A → Io W B) → ((a : A) → Raises (f a)) → Raises (m >>= f)
  Raises-then m f h w = continue-Raises f (m w).0 (m w).1 h

module _ {W : Type 0} (reads : OrderReads W) (env : Env W) where
  -- A read of the orders or of the fills of this session raises.
  abbrev pub FailsOn : ℕ → Type 0
  FailsOn ib = Raises (reads.orders ib) ⊎ Raises (reads.fills ib)

  read_slots-passed :
      (cfg : TwsSlotConfig) (sc : SlotConnection) (ib : Option ℕ)
      (slots : List (TwsSlotConfig × SlotConnection))
      → sc.ib ≡ ib
      → Raises (read_slots reads env slots)
      → Raises (read_slots reads env ((cfg, sc) ∷ slots))
  unfolding read_slots
  read_slots-passed cfg sc none slots is later = rw is later
  read_slots-passed cfg sc (some ib) slots is later =
      elim (Bool-cases (is_connected_state sc.state)) [
        | inl up ↦
            rw (is, up)
              (Raises-then (reads.orders ib) _ (λ orders.
                Raises-then (reads.fills ib) _
                  (λ fills. Raises-first (read_slots reads env slots) _ later)))
        | inr down ↦ rw (is, down) later
      ]

  read_slots-failed :
      (cfg : TwsSlotConfig) (sc : SlotConnection) (ib : ℕ)
      (slots : List (TwsSlotConfig × SlotConnection))
      → sc.ib ≡ some ib
      → is_connected_state sc.state ≡ true
      → FailsOn ib
      → Raises (read_slots reads env ((cfg, sc) ∷ slots))
  unfolding read_slots
  read_slots-failed cfg sc ib slots is up (inl orders) =
      rw (is, up) (Raises-first (reads.orders ib) _ orders)
  read_slots-failed cfg sc ib slots is up (inr fills) =
      rw (is, up)
        (Raises-then (reads.orders ib) _ (λ orders. Raises-first (reads.fills ib) _ fills))

  read_slots-Raises :
      (before after : List (TwsSlotConfig × SlotConnection)) (cfg : TwsSlotConfig)
      (sc : SlotConnection) (ib : ℕ)
      → sc.ib ≡ some ib
      → is_connected_state sc.state ≡ true
      → FailsOn ib
      → Raises (read_slots reads env (before ++ (cfg, sc) ∷ after))
  read_slots-Raises [] after cfg sc ib is up fails = read_slots-failed cfg sc ib after is up fails
  read_slots-Raises ((c, s) ∷ before) after cfg sc ib is up fails =
      read_slots-passed c s s.ib (before ++ (cfg, sc) ∷ after) refl
        (read_slots-Raises before after cfg sc ib is up fails)

  -- Where a read of the orders or of the fills raises for one of the slots that are connected, and
  -- the cache is older than a minute, the snapshot of the round has neither open_orders nor
  -- last_execution_rows, whatever the other slots give: a failed read is never published as an
  -- empty book, nor as the book before it.
  pub failed_reads_omitted :
      (before after : List (TwsSlotConfig × SlotConnection)) (cfg : TwsSlotConfig)
      (sc : SlotConnection) (ib : ℕ) (c : OrderCache) (w : W) (live : Live) (rows : List Dict)
      → sc.ib ≡ some ib
      → is_connected_state sc.state ≡ true
      → FailsOn ib
      → is_recent (env.now w) c ≡ false
      → let slots = before ++ (cfg, sc) ∷ after in
        let body = snapshot_body live rows (refresh_order_reads reads env slots c w).0 in
        (get (txt "open_orders") body ≡ none) × (get (txt "last_execution_rows") body ≡ none)
  unfolding refresh_order_reads store_reads snapshot_body get text_eq
  failed_reads_omitted before after cfg sc ib c w live rows is up fails old =
      let (e, failed) = read_slots-Raises before after cfg sc ib is up fails w in
      (rw (old, failed) refl, rw (old, failed) refl)
