-- ===== src/Live/Book.antt =====
-- _reconcile_host_market_data against the book of TWS: the symbols that a session streams.
use bifrost_platform_plugin.Prelude.{
  ℕ, ◌≡◌, refl, ap, sym, ◌∙◌, inl, inr, Bool, true, false, not, ◌&&◌, ◌||◌, List, [], ◌∷◌, Option,
  some, arith, Bool-cases,
}
use bifrost_platform_plugin.Text.{Text, text_eq, mem_text}
use bifrost_platform_plugin.Text.Laws.{text_eq→eq, mem_text-append}
use bifrost_platform_plugin.Float.{Float, ltb_f, sub_f}
use bifrost_platform_plugin.Effects.{Outcome, returned, Env}
use bifrost_platform_plugin.Effects.Keep.{continue-Keeps}
use bifrost_platform_plugin.Json.{Python}
use bifrost_platform_plugin.Redis.{Redis}
use bifrost_platform_plugin.RedisKeys.{ib_ingester_on_demand_stk, ib_ingester_on_demand_stk_ts}
use bifrost_platform_plugin.Writer.{set_subscriptions}
use bifrost_platform_plugin.OnDemand.{
  list_fresh_on_demand_stk, build_desired_stk_symbols, clean_symbol,
}
use bifrost_platform_plugin.OnDemand.Spares.{Spares, list_fresh-Keeps}
use bifrost_platform_plugin.OnDemand.Fresh.{list_fresh_returns}
use bifrost_platform_plugin.Live.MarketData.{
  Streams, StreamSettings, Feed, is_none_left, stream_keys, cancel_if, close_streams, open_one,
  open_streams, switch_streams, desired_symbols, switch_to, reconcile_now,
  reconcile_host_market_data, Takes, close_lem, open_lem,
}

-- `book w` holds the symbols that TWS streams to the session `ib`: TWS takes every request of the
-- session, a request adds its symbol and cancelMktData removes its symbol.
pub record KeepsBook {W : Type 0} (feed : Feed W) (ib : ℕ) (book : W → Text → Bool) : Type 0 where
  pub takes : Takes feed ib
  pub requested : (n s : Text) (w : W) → book (feed.request ib s w).1 n ≡ (book w n || text_eq n s)
  pub cancelled :
      (n s : Text) (w : W) → book (feed.cancel ib s w) n ≡ (book w n && not (text_eq n s))

module _ {W : Type 0} (feed : Feed W) (ib : ℕ) (book : W → Text → Bool)
    (kept : KeepsBook feed ib book) where
  close-book :
      (n : Text) (desired tickers : List Text) (w : W)
      → book (close_streams feed (some ib) desired tickers w).1 n
        ≡ (book w n && (not (mem_text n tickers) || mem_text n desired))
  unfolding close_streams cancel_if mem_text
  close-book n desired [] w = ground arith
  close-book n desired (s ∷ tickers) w = elim (Bool-cases (mem_text s desired)) [
    | inl wanted ↦ rw wanted (
        ground
          (arith, close-book n desired tickers w, λ (e : text_eq n s ≡ true). same n s e ∙ wanted))
    | inr other ↦ rw other (
        ground (
          arith,
          close-book n desired tickers (feed.cancel ib s w),
          kept.cancelled n s w,
          λ (e : text_eq n s ≡ true). same n s e ∙ other,
        ))
  ]
    where
      same : (a b : Text) → text_eq a b ≡ true → mem_text a desired ≡ mem_text b desired
      same a b e = ap (λ t. mem_text t desired) (text_eq→eq a b e)

  -- The gateway's table says of this symbol what the book does.
  abbrev Matches : Text → List Text × W → Type 0
  Matches n g = mem_text n g.0 ≡ book g.1 n

  open_one-Matches :
      (n s : Text) (g : List Text × W) → Matches n g → Matches n (open_one feed (some ib) s g)
  unfolding open_one mem_text
  open_one-Matches n s (tickers, w) h = elim (Bool-cases (mem_text s tickers)) [
    | inl there ↦ rw there h
    | inr new ↦
        rw (new, kept.takes s w)
          (mem_text-append n tickers (s ∷ []) ∙ ground (arith, kept.requested n s w, h))
  ]

  open-Matches :
      (n : Text) (desired : List Text) (g : List Text × W)
      → Matches n g
      → Matches n (open_streams feed (some ib) desired g)
  unfolding open_streams
  open-Matches n [] g h = h
  open-Matches n (s ∷ desired) g h =
      open-Matches n desired (open_one feed (some ib) s g) (open_one-Matches n s g h)

  pub switch_streams_exact :
      (n : Text) (desired tickers : List Text) (w : W)
      → mem_text n tickers ≡ book w n
      → let g = switch_streams feed (some ib) desired tickers w in
        (mem_text n g.0 ≡ mem_text n desired) × (book g.1 n ≡ mem_text n desired)
  unfolding switch_streams
  switch_streams_exact n desired tickers w h =
      let c = close_streams feed (some ib) desired tickers w in
      let left = close_lem feed (some ib) n desired tickers w in
      let table : mem_text n (open_streams feed (some ib) desired c).0 ≡ mem_text n desired =
        open_lem feed ib n desired c kept.takes ∙ ground (arith, left) in
      let match : Matches n c = ground (arith, left, h, close-book n desired tickers w) in
      (table, sym (open-Matches n desired c match) ∙ table)

module _ {W : Type 0} (feed : Feed W) (ib : ℕ) (book : W → Text → Bool) (rds : Redis W)
    (py : Python) (env : Env W) (read_float : Text → Option Float) (settings : StreamSettings) where
  abbrev pub fresh_symbols : W → Outcome (List Text) × W
  fresh_symbols w =
      list_fresh_on_demand_stk read_float rds settings.on_demand_max_age_sec (env.now w) w

  abbrev pub reconciled : Streams → W → Streams × Outcome (Unit {0}) × W
  reconciled = reconcile_host_market_data feed rds py env read_float settings (some ib)

  -- Where the last reconciliation is long enough ago, or nothing is subscribed, TWS takes every
  -- request of the session and keeps the book of them, which Redis does not touch, and the gateway's
  -- table says of a symbol what the book of the session does: the registrations are listed, whatever
  -- Redis answers, and then both the table and the book have the symbol exactly if the merge of
  -- the watchlist with the registrations does; the time of the reconciliation is noted.
  pub reconcile_exact :
      (n : Text) (st : Streams) (w : W)
      → KeepsBook feed ib book
      → Spares rds (λ v. book v n)
      → mem_text n st.tickers ≡ book w n
      → (not (is_none_left st.tickers)
          && ltb_f (sub_f (env.now w) st.last_reconcile_at) settings.on_demand_reconcile_sec)
        ≡ false
      → (fresh : List Text) × ((fresh_symbols w).0 ≡ returned fresh)
        × (let desired =
              (build_desired_stk_symbols settings.watchlist_symbols fresh
                settings.max_stream_stk).0 in
            (mem_text n (reconciled st w).0.tickers ≡ mem_text n desired)
            × (book (reconciled st w).2 n ≡ mem_text n desired)
            × ((reconciled st w).0.last_reconcile_at ≡ env.now w))
  unfolding reconcile_host_market_data reconcile_now switch_to desired_symbols
      list_fresh_on_demand_stk set_subscriptions
  reconcile_exact n st w kept spared matched due =
      let (fresh, e) =
        list_fresh_returns read_float clean_symbol rds ib_ingester_on_demand_stk
          ib_ingester_on_demand_stk_ts settings.on_demand_max_age_sec (env.now w) w in
      let listed =
        list_fresh-Keeps rds (λ v. book v n) spared read_float clean_symbol
          ib_ingester_on_demand_stk ib_ingester_on_demand_stk_ts settings.on_demand_max_age_sec
          (env.now w) w in
      let desired =
        (build_desired_stk_symbols settings.watchlist_symbols fresh settings.max_stream_stk).0 in
      let (table, held) =
        switch_streams_exact feed ib book kept n desired st.tickers (fresh_symbols w).1
          (matched ∙ sym listed) in
      let g = switch_streams feed (some ib) desired st.tickers (fresh_symbols w).1 in
      let told =
        continue-Keeps (λ v. book v n) (set_subscriptions rds py env) (stream_keys desired) g.1
          (λ keys. spared.pipeline_spares _) in
      (fresh, e, (rw (due, e) table, rw (due, e) (told ∙ held), rw (due, e) refl))
