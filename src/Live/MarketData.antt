-- ===== src/Live/MarketData.antt =====
-- _reconcile_host_market_data: the streams of the host slot.
use bifrost_platform_plugin.Prelude.{
  ℕ, ◌≡◌, refl, ap, ◌∙◌, inl, inr, Bool, true, false, not, ◌&&◌, ◌||◌, List, [], ◌∷◌, ◌++◌, Option,
  none, some, arith, Bool-cases, if◌then◌else◌,
}
use bifrost_platform_plugin.Text.{Text, text_eq, mem_text}
use bifrost_platform_plugin.Text.Laws.{mem_text-append, text_eq→eq}
use bifrost_platform_plugin.Float.{Float, ltb_f, sub_f}
use bifrost_platform_plugin.Effects.{Outcome, returned, raised, Io, pure, lift, ◌>>=◌, Env}
use bifrost_platform_plugin.Json.{Python}
use bifrost_platform_plugin.Redis.{Redis}
use bifrost_platform_plugin.RedisKeys.{stk_contract_key}
use bifrost_platform_plugin.Writer.{set_subscriptions}
use bifrost_platform_plugin.OnDemand.{list_fresh_on_demand_stk, build_desired_stk_symbols}

-- _tickers by their symbols, in order, and _last_reconcile_at.
pub record Streams : Type 0 where
  pub tickers : List Text
  pub last_reconcile_at : Float

pub record StreamSettings : Type 0 where
  pub watchlist_symbols : List Text
  pub on_demand_max_age_sec : Float
  pub max_stream_stk : ℕ
  pub on_demand_reconcile_sec : Float

-- reqMktData on a session, and whether it returned; cancelMktData, whose exceptions are caught.
pub record Feed (W : Type 0) : Type 0 where
  pub request : ℕ → Text → W → Bool × W
  pub cancel : ℕ → Text → W → W

unfoldable pub is_none_left : List Text → Bool
is_none_left [] = true
is_none_left (t ∷ tickers) = false

-- {stk_contract_key(s) for s in desired}
unfoldable pub stream_keys : List Text → Outcome (List Text)
stream_keys [] = returned []
stream_keys (s ∷ desired) = elim (stk_contract_key s) [
  | raised e ↦ raised e
  | returned key ↦ elim (stream_keys desired) [
    | raised e ↦ raised e
    | returned keys ↦ returned (key ∷ keys)
  ]
]

module _ {W : Type 0} (feed : Feed W) where
  unfoldable pub cancel_if : Option ℕ → Text → W → W
  cancel_if none s w = w
  cancel_if (some ib) s w = feed.cancel ib s w

  -- The loop over `active - desired_set`, in the order of the tickers.
  unfoldable pub close_streams : Option ℕ → List Text → List Text → W → List Text × W
  close_streams ib desired [] w = ([], w)
  close_streams ib desired (s ∷ tickers) w =
      let kept = close_streams ib desired tickers w in
      let closed = close_streams ib desired tickers (cancel_if ib s w) in
      if mem_text s desired then (s ∷ kept.0, kept.1) else closed

  -- The request for one symbol: the tickers with it, if it returned.
  unfoldable pub open_one : Option ℕ → Text → List Text × W → List Text × W
  open_one none s (tickers, w) = (tickers, w)
  open_one (some ib) s (tickers, w) =
      let r = feed.request ib s w in
      if mem_text s tickers
      then (tickers, w)
      else if r.0
      then (tickers ++ s ∷ [], r.1)
      else (tickers, r.1)

  unfoldable pub open_streams : Option ℕ → List Text → List Text × W → List Text × W
  open_streams ib [] g = g
  open_streams ib (s ∷ desired) g = open_streams ib desired (open_one ib s g)

  unfoldable pub switch_streams : Option ℕ → List Text → List Text → W → List Text × W
  switch_streams ib desired tickers w = open_streams ib desired (close_streams ib desired tickers w)

  module _ (rds : Redis W) (py : Python) (env : Env W) (read_float : Text → Option Float)
      (settings : StreamSettings) where
    unfoldable pub desired_symbols : Float → Io W (List Text)
    desired_symbols now = do
      on_demand ← list_fresh_on_demand_stk read_float rds settings.on_demand_max_age_sec now
      pure
          (build_desired_stk_symbols settings.watchlist_symbols on_demand settings.max_stream_stk).0

    -- With the desired symbols, at the time `now`.
    unfoldable pub switch_to :
        Option ℕ → Float → Streams → Outcome (List Text) → W → Streams × Outcome (Unit {0}) × W
    switch_to ib now st (raised e) w = (record st { last_reconcile_at = now }, raised e, w)
    switch_to ib now st (returned desired) w =
        let g = switch_streams ib desired st.tickers w in
        let done = (lift (stream_keys desired) >>= set_subscriptions rds py env) g.1 in
        (record { tickers = g.0; last_reconcile_at = now }, done.0, done.1)

    -- Past the test of the time since the last one.
    unfoldable pub reconcile_now : Option ℕ → Streams → W → Streams × Outcome (Unit {0}) × W
    reconcile_now ib st w =
        let d = desired_symbols (env.now w) w in switch_to ib (env.now w) st d.0 d.1

    unfoldable pub reconcile_host_market_data :
        Option ℕ → Streams → W → Streams × Outcome (Unit {0}) × W
    reconcile_host_market_data ib st w =
        let run = reconcile_now ib st w in
        if not (is_none_left st.tickers)
          && ltb_f (sub_f (env.now w) st.last_reconcile_at) settings.on_demand_reconcile_sec
        then (st, returned tt, w)
        else run

  pub close_lem :
      (ib : Option ℕ) (n : Text) (desired tickers : List Text) (w : W)
      → mem_text n (close_streams ib desired tickers w).0
        ≡ (mem_text n tickers && mem_text n desired)
  unfolding close_streams mem_text
  close_lem ib n desired [] w = refl
  close_lem ib n desired (s ∷ tickers) w = elim (Bool-cases (mem_text s desired)) [
    | inl wanted ↦ rw wanted (
        ground (
          arith,
          close_lem ib n desired tickers w,
          λ (e : text_eq n s ≡ true). same n s e ∙ wanted,
        ))
    | inr other ↦ rw other (
        ground (
          arith,
          close_lem ib n desired tickers (cancel_if ib s w),
          λ (e : text_eq n s ≡ true). same n s e ∙ other,
        ))
  ]
    where
      same : (a b : Text) → text_eq a b ≡ true → mem_text a desired ≡ mem_text b desired
      same a b e = ap (λ t. mem_text t desired) (text_eq→eq a b e)

  -- TWS takes every request of the session `ib`.
  abbrev pub Takes : ℕ → Type 0
  Takes ib = (s : Text) (w : W) → (feed.request ib s w).0 ≡ true

  open_one_lem :
      (ib : ℕ) (n s : Text) (tickers : List Text) (w : W)
      → Takes ib
      → mem_text n (open_one (some ib) s (tickers, w)).0 ≡ (mem_text n tickers || text_eq n s)
  unfolding open_one mem_text
  open_one_lem ib n s tickers w takes = elim (Bool-cases (mem_text s tickers)) [
    | inl there ↦ rw there (
        ground (
          arith,
          λ (e : text_eq n s ≡ true). ap (λ t. mem_text t tickers) (text_eq→eq n s e) ∙ there,
        ))
    | inr new ↦ rw (new, takes s w) (mem_text-append n tickers (s ∷ []) ∙ ground arith)
  ]

  pub open_lem :
      (ib : ℕ) (n : Text) (desired : List Text) (g : List Text × W)
      → Takes ib
      → mem_text n (open_streams (some ib) desired g).0 ≡ (mem_text n g.0 || mem_text n desired)
  unfolding open_streams mem_text
  open_lem ib n [] g takes = ground arith
  open_lem ib n (s ∷ desired) g takes =
      open_lem ib n desired (open_one (some ib) s g) takes
      ∙ ap (λ b. b || mem_text n desired) (open_one_lem ib n s g.0 g.1 takes)
      ∙ ground arith
