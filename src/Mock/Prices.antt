-- ===== src/Mock/Prices.antt =====
-- The prices of the mock stay numbers that are not below 0, whatever its tasks and commands do.
use bifrost_platform_plugin.Prelude.{
  ℕ, suc, ◌+◌, ◌-◌, ◌*◌, ◌/◌, ◌≡◌, refl, List, [], ◌∷◌, Option, All, ℤ, pos, negsuc, ◌+ℤ◌, ◌≤ℤ◌,
  arith, Bool-cases, inl, inr,
}
use bifrost_platform_plugin.Text.{Text, text_eq}
use bifrost_platform_plugin.Float.{Float, fin, add_f, mul_f}
use bifrost_platform_plugin.Effects.{Io, Env, lift, for_each, ◌>>=◌}
use bifrost_platform_plugin.Effects.Returns.{Holds}
use bifrost_platform_plugin.Effects.Keep.{
  Preserves, continue-Preserves, Preserves-bind, Preserves-for_each,
}
use bifrost_platform_plugin.Json.{Python}
use bifrost_platform_plugin.Redis.{Redis}
use bifrost_platform_plugin.Writer.{set_subscriptions}
use bifrost_platform_plugin.Live.MarketData.{stream_keys}
use bifrost_platform_plugin.Mock.State.{
  MockGateway, MockSettings, Random, MockIo, outside, price_or, put_price,
}
use bifrost_platform_plugin.Mock.Ticks.{
  moved, step_price, publish_tick, tick_symbol, publish_snapshot, tick_symbols, mock_symbols,
  tick_round,
}
use bifrost_platform_plugin.Mock.Quotes.{IsPrice}

-- random.uniform(low, high) gives a number between its arguments.
pub record IsUniform {W : Type 0} (random : Random W) : Type 0 where
  pub between :
      (low high : ℤ) (w : W)
      → low ≤ℤ high
      → (z : ℤ) × ((random.uniform (fin low) (fin high) w).0 ≡ fin z) × (low ≤ℤ z) × (z ≤ℤ high)

-- Every price is a number that is not below 0.
abbrev pub AllPriced : List (Text × Float) → Type 0
AllPriced = All (λ p. IsPrice p.1)

-- A property of the prices, of the mock in its world.
abbrev pub OfPrices : {W : Type 0} → (List (Text × Float) → Type 0) → MockGateway × W → Type 0
OfPrices P (mock, w) = P mock.prices

price_or-IsPrice :
    (default : Float) (sym : Text) (prices : List (Text × Float))
    → IsPrice default
    → AllPriced prices
    → IsPrice (price_or default sym prices)
unfolding price_or
price_or-IsPrice default sym [] d h = d
price_or-IsPrice default sym ((s, x) ∷ prices) d h = elim (Bool-cases (text_eq sym s)) [
  | inl same ↦ rw same h.0
  | inr other ↦ rw other (price_or-IsPrice default sym prices d h.1)
]

put_price-AllPriced :
    (sym : Text) (base : Float) (prices : List (Text × Float))
    → IsPrice base
    → AllPriced prices
    → AllPriced (put_price sym base prices)
unfolding put_price
put_price-AllPriced sym base [] b h = (b, tt)
put_price-AllPriced sym base ((s, x) ∷ prices) b h = elim (Bool-cases (text_eq sym s)) [
  | inl same ↦ rw same (b, h.1)
  | inr other ↦ rw other (h.0, put_price-AllPriced sym base prices b h.1)
]

-- 1 + u is above 0 for u from -0.002.
factor_above : (z : ℤ) → negsuc 1999 ≤ℤ z → (m : ℕ) × (pos 1000000 +ℤ z ≡ pos m)
unfolding ◌+ℤ◌
factor_above (pos k) low = (1000000 + k, ground arith)
factor_above (negsuc k) low = (1000000 - suc k, ground arith)

moved-IsPrice :
    (base : Float) (z : ℤ) → IsPrice base → negsuc 1999 ≤ℤ z → IsPrice (moved base (fin z))
unfolding moved mul_f add_f
moved-IsPrice base z (n, e) low =
    let (m, above) = factor_above z low in rw (e, above) (n * m / 1000000, refl)

module _ {W : Type 0} (rds : Redis W) (py : Python) (env : Env W) (random : Random W)
    (read_float : Text → Option Float) (settings : MockSettings) where
  -- The new price of a symbol, from prices that are numbers and not below 0.
  pub step_price-IsPrice :
      (sym : Text) (g : MockGateway × W)
      → IsUniform random
      → OfPrices AllPriced g
      → Holds IsPrice (step_price rds py env random read_float settings sym g).0
        × OfPrices AllPriced (step_price rds py env random read_float settings sym g).1
  unfolding step_price
  step_price-IsPrice sym (mock, w) fair h =
      let (z, e, low, high) = fair.between (negsuc 1999) (pos 2000) w (omega arith) in
      let base =
        moved-IsPrice (price_or (fin (pos 100000000)) sym mock.prices) z
          (price_or-IsPrice (fin (pos 100000000)) sym mock.prices (100000000, refl) h) low in
      rw e (base, put_price-AllPriced sym _ mock.prices base h)

  -- What a step of any symbol's price preserves, a round of the ticks preserves.
  module _ (P : List (Text × Float) → Type 0)
      (stepped : (sym : Text)
        → Preserves (OfPrices P) (step_price rds py env random read_float settings sym)) where
    abbrev pub Priced : {A : Type 0} → MockIo W A → Type 0
    Priced m = Preserves (OfPrices P) m

    pub outside-Priced : {A : Type 0} (m : Io W A) → Priced (outside m)
    unfolding outside
    outside-Priced m (mock, w) h = h

    tick_symbol-Priced :
        (sym : Text) → Priced (tick_symbol rds py env random read_float settings sym)
    unfolding tick_symbol
    tick_symbol-Priced sym =
        Preserves-bind (OfPrices P) (step_price rds py env random read_float settings sym)
          (λ base. outside (publish_tick rds py env random read_float settings sym base))
          (stepped sym) (λ base. outside-Priced _)

    publish_snapshot-Priced : Priced (publish_snapshot rds py env random read_float settings)
    unfolding publish_snapshot
    publish_snapshot-Priced (mock, w) h = h

    tick_symbols-Priced :
        (symbols : List Text) → Priced (tick_symbols rds py env random read_float settings symbols)
    unfolding tick_symbols
    tick_symbols-Priced symbols =
        Preserves-bind (OfPrices P)
          (for_each (tick_symbol rds py env random read_float settings) symbols) _
          (Preserves-for_each (OfPrices P) (tick_symbol rds py env random read_float settings)
            symbols tick_symbol-Priced)
          (λ u.
            Preserves-bind (OfPrices P)
              (outside (lift (stream_keys symbols) >>= set_subscriptions rds py env))
              (λ v. publish_snapshot rds py env random read_float settings) (outside-Priced _)
              (λ v. publish_snapshot-Priced))

    pub tick_round-Priced : Priced (tick_round rds py env random read_float settings)
    unfolding tick_round
    tick_round-Priced (mock, w) h =
        continue-Preserves (OfPrices P)
          (λ on_demand.
            tick_symbols rds py env random read_float settings
              (mock_symbols rds py env random read_float settings mock on_demand))
          _ (mock, _) (λ on_demand. tick_symbols-Priced _) h
