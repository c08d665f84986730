-- ===== src/Mock/Symbols.antt =====
-- The symbols that the mock ticks when its watchlist is empty.
use bifrost_platform_plugin.Prelude.{
  ◌-◌, ◌≡◌, refl, sym, ap, ◌∙◌, true, false, ◌||◌, List, [], ◌∷◌, ◌++◌, Option, map, max, take,
  length, arith, Bool-cases, inl, inr,
}
use bifrost_platform_plugin.Text.{Text, text_eq, mem_text, strip}
use bifrost_platform_plugin.Text.Laws.{text_eq→eq, mem_text-append, text_eq_refl}
use bifrost_platform_plugin.Float.{Float}
use bifrost_platform_plugin.Effects.{Env}
use bifrost_platform_plugin.Json.{Python}
use bifrost_platform_plugin.Redis.{Redis}
use bifrost_platform_plugin.OnDemand.{clean_symbol, add_watchlist, clean_watchlist}
use bifrost_platform_plugin.OnDemand.Desired.{
  watched, new_symbols, add_watchlist_lem, build_desired_lem,
}
use bifrost_platform_plugin.Live.OptCache.{Waits}
use bifrost_platform_plugin.Mock.State.{MockGateway, MockSettings, Random, put_price}
use bifrost_platform_plugin.Mock.Ticks.{watchlist_or_priced, step_price, mock_symbols}
use bifrost_platform_plugin.Mock.Turns.{MockReach, MockReach-OfPrices}

-- self._prices.keys()
abbrev pub symbols_of : List (Text × Float) → List Text
symbols_of prices = map (λ p. p.0) prices

-- A symbol as the desired ones hold it.
pub record IsClean (n : Text) : Type 0 where
  pub fixed : clean_symbol n ≡ n
  pub given : text_eq (strip n) [] ≡ false

put_price-symbols :
    (n name : Text) (base : Float) (prices : List (Text × Float))
    → mem_text n (symbols_of prices) ≡ true
    → mem_text n (symbols_of (put_price name base prices)) ≡ true
unfolding put_price mem_text
put_price-symbols n name base [] h = ground arith
put_price-symbols n name base ((s, x) ∷ prices) h = elim (Bool-cases (text_eq name s)) [
  | inl same ↦ rw same h
  | inr other ↦ rw other (ground (arith, put_price-symbols n name base prices))
]

clean_watchlist-mem :
    (n : Text) (wl : List Text)
    → IsClean n
    → mem_text n wl ≡ true
    → mem_text n (clean_watchlist wl) ≡ true
unfolding clean_watchlist mem_text
clean_watchlist-mem n [] c h = h
clean_watchlist-mem n (s ∷ wl) c h = elim (Bool-cases (text_eq n s)) [
  | inl same ↦
      let e = text_eq→eq n s same in rw (sym e, c.given, c.fixed) (ground (arith, text_eq_refl n))
  | inr other ↦
      let ih = clean_watchlist-mem n wl c (rw other at h) in
      elim (Bool-cases (text_eq (strip s) [])) [
        | inl blank ↦ rw blank ih
        | inr given ↦ rw given (ground (arith, ih))
      ]
]

add_watchlist-mem :
    (n : Text) (desired wl : List Text)
    → (mem_text n desired || mem_text n wl) ≡ true
    → mem_text n (add_watchlist desired wl) ≡ true
unfolding add_watchlist mem_text
add_watchlist-mem n desired [] h = ground arith
add_watchlist-mem n desired (s ∷ wl) h = elim (Bool-cases (mem_text s desired)) [
  | inl old ↦ rw old (
      add_watchlist-mem n desired wl (
        ground (
          arith,
          λ (e : text_eq n s ≡ true). ap (λ t. mem_text t desired) (text_eq→eq n s e) ∙ old,
        )))
  | inr new ↦ rw new (
      add_watchlist-mem n (desired ++ s ∷ []) wl
        (ground (arith, mem_text-append n desired (s ∷ []))))
]

module _ {W : Type 0} (rds : Redis W) (py : Python) (env : Env W) (random : Random W)
    (waits : Waits W) (read_float : Text → Option Float) (settings : MockSettings) where
  step_price-symbols :
      (n name : Text) (g : MockGateway × W)
      → mem_text n (symbols_of g.0.prices) ≡ true
      → mem_text n (symbols_of (step_price rds py env random read_float settings name g).1.0.prices)
        ≡ true
  unfolding step_price
  step_price-symbols n name (mock, w) h = put_price-symbols n name _ mock.prices h

  desired-mem :
      (n : Text) (mock : MockGateway) (on_demand : List Text)
      → settings.streams.watchlist_symbols ≡ []
      → IsClean n
      → mem_text n (symbols_of mock.prices) ≡ true
      → mem_text n (mock_symbols rds py env random read_float settings mock on_demand) ≡ true
  unfolding mock_symbols watchlist_or_priced mem_text
  desired-mem n mock on_demand none_watched c h =
      let wl = symbols_of mock.prices in
      let cap = settings.streams.max_stream_stk in
      let later = take (max 1 cap - length (watched wl)) (new_symbols (watched wl) on_demand) in
      let own : mem_text n (watched wl) ≡ true =
        ap (λ l. mem_text n l) (sym (add_watchlist_lem [] wl))
        ∙ add_watchlist-mem n [] (clean_watchlist wl) (clean_watchlist-mem n wl c h) in
      rw
        (
          none_watched,
          (build_desired_lem wl on_demand cap).0,
          mem_text-append n (watched wl) later,
          own,
        )
        refl

  -- With an empty watchlist a symbol in normal form that has a price once is among the symbols of
  -- every later round, in whatever order the mock's tasks and commands act, whatever symbols clients
  -- ask for in that round, and whatever the cap is.
  pub mock_symbols_stay :
      (n : Text) (g h : MockGateway × W) (on_demand : List Text)
      → settings.streams.watchlist_symbols ≡ []
      → IsClean n
      → mem_text n (symbols_of g.0.prices) ≡ true
      → MockReach rds py env random waits read_float settings g h
      → mem_text n (mock_symbols rds py env random read_float settings h.0 on_demand) ≡ true
  mock_symbols_stay n g h on_demand none_watched c priced r =
      desired-mem n h.0 on_demand none_watched c (
        MockReach-OfPrices rds py env random waits read_float settings
          (λ prices. mem_text n (symbols_of prices) ≡ true)
          (λ name k p. step_price-symbols n name k p) r priced)
