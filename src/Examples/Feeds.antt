-- ===== src/Examples/Feeds.antt =====
-- A feed that takes every request, and order reads that fail.
use bifrost_platform_plugin.Prelude.{
  ap, ◌∙◌, ◌++◌, ◌&&◌, ◌||◌, not, false, Bool, none, arith, inl, inr, Bool-cases, if◌then◌else◌, ℕ,
  ◌≡◌, refl, List, [], ◌∷◌, true, Option, some, pos,
}
use bifrost_platform_plugin.Text.{Text, txt, mem_text, text_eq}
use bifrost_platform_plugin.Float.{Float, fin, zero_f, sub_f, ltb_f}
use bifrost_platform_plugin.Effects.{returned, raised}
use bifrost_platform_plugin.Redis.{Redis}
use bifrost_platform_plugin.OnDemand.{build_desired_stk_symbols}
use bifrost_platform_plugin.Connection.{SlotConnection, connected}
use bifrost_platform_plugin.Live.Orders.{OrderCache, OrderReads}
use bifrost_platform_plugin.Live.MarketData.{Streams, StreamSettings, Feed, is_none_left}
use bifrost_platform_plugin.Live.Book.{KeepsBook, fresh_symbols, reconciled, reconcile_exact}
use bifrost_platform_plugin.OnDemand.Spares.{Spares}
use bifrost_platform_plugin.Text.Laws.{text_eq→eq, mem_text-append}
use bifrost_platform_plugin.Examples.Doubles.{refused, still, codec}
use bifrost_platform_plugin.Examples.Slots.{fresh_conn}

abbrev pub slot_up : SlotConnection
slot_up = record fresh_conn { state = connected; ib = some 0 }

abbrev pub no_reads : OrderReads ℕ
no_reads = record { orders = λ ib w. (returned [], w); fills = λ ib w. (raised refused, w) }

abbrev pub filled : OrderCache
filled = record {
  open_orders = some [];
  open_orders_at = fin (pos 0);
  executions = some [];
  executions_at = fin (pos 0);
}

-- The world of these doubles is the book: the symbols that TWS streams.
abbrev without : Text → List Text → List Text
without s [] = []
without s (n ∷ w) = if text_eq n s then without s w else n ∷ without s w

abbrev booking : Feed (List Text)
booking = record { request = λ ib s w. (true, w ++ s ∷ []); cancel = λ ib s w. without s w }

mem-without :
    (n s : Text) (w : List Text) → mem_text n (without s w) ≡ (mem_text n w && not (text_eq n s))
unfolding mem_text
mem-without n s [] = refl
mem-without n s (m ∷ w) = elim (Bool-cases (text_eq m s)) [
  | inl gone ↦ rw gone (
      ground (
        arith,
        mem-without n s w,
        λ (e : text_eq n m ≡ true). ap (λ t. text_eq t s) (text_eq→eq n m e) ∙ gone,
      ))
  | inr stays ↦ rw stays (
      ground (
        arith,
        mem-without n s w,
        λ (e : text_eq n m ≡ true). ap (λ t. text_eq t s) (text_eq→eq n m e) ∙ stays,
      ))
]

booking-KeepsBook : KeepsBook booking 0 (λ w n. mem_text n w)
booking-KeepsBook = record {
  takes = λ s w. refl;
  requested = λ n s w. mem_text-append n w (s ∷ []) ∙ one n s (mem_text n w);
  cancelled = λ n s w. mem-without n s w;
}
  where
    one : (n s : Text) (b : Bool) → (b || mem_text n (s ∷ [])) ≡ (b || text_eq n s)
    one n s b = unfold mem_text in ground arith

abbrev registered : Redis (List Text)
registered = record {
  set = λ key value ttl w. (returned tt, w);
  get = λ key w. (returned none, w);
  delete = λ key w. (returned tt, w);
  publish = λ channel message w. (returned tt, w);
  smembers = λ key w. (returned (txt "aapl" ∷ []), w);
  sadd = λ key members w. (returned tt, w);
  srem = λ key members w. (returned tt, w);
  hgetall = λ key w. (returned ((txt "AAPL", txt "0.9") ∷ []), w);
  hget = λ key field w. (returned none, w);
  hset = λ key fields w. (returned tt, w);
  hdel = λ key fields w. (returned tt, w);
  xack = λ stream group entry w. (returned tt, w);
  xgroup_create = λ stream group w. (returned tt, w);
  xreadgroup = λ group consumer names count block w. (returned [], w);
  pipeline = λ commands w. (returned tt, w);
}

registered-Spares : Spares registered (λ w. mem_text (txt "MSFT") w)
registered-Spares = record {
  smembers_spares = λ key w. refl;
  hgetall_spares = λ key w. refl;
  srem_spares = λ key xs w. refl;
  hdel_spares = λ key xs w. refl;
  pipeline_spares = λ cs w. refl;
}

abbrev read_float : Text → Option Float
read_float s = some (fin (pos 900000))

abbrev stream_settings : StreamSettings
stream_settings = record {
  watchlist_symbols = txt "SPY" ∷ [];
  on_demand_max_age_sec = fin (pos 300000);
  max_stream_stk = 40;
  on_demand_reconcile_sec = fin (pos 500000);
}

abbrev one_stream : Streams
one_stream = record { tickers = txt "MSFT" ∷ []; last_reconcile_at = zero_f }

abbrev msft_book : List Text
msft_book = txt "MSFT" ∷ []

stream_due :
    (not (is_none_left one_stream.tickers)
      && ltb_f (sub_f (fin (pos 1000000)) zero_f) (fin (pos 500000)))
    ≡ false
unfolding is_none_left sub_f
stream_due = refl

reconcile_exact_example :
    (fresh : List Text) × ((fresh_symbols booking 0
        (λ w n. mem_text n w)
        registered
        codec
        still
        read_float
        stream_settings
        msft_book).0
      ≡ returned fresh)
    × (let desired = (build_desired_stk_symbols (txt "SPY" ∷ []) fresh 40).0 in
        let r =
          reconciled booking 0
            (λ w n. mem_text n w)
            registered
            codec
            still
            read_float
            stream_settings
            one_stream
            msft_book in
        (mem_text (txt "MSFT") r.0.tickers ≡ mem_text (txt "MSFT") desired)
        × (mem_text (txt "MSFT") r.2 ≡ mem_text (txt "MSFT") desired)
        × (r.0.last_reconcile_at ≡ fin (pos 1000000)))
reconcile_exact_example =
    reconcile_exact booking 0 (λ w n. mem_text n w) registered codec still read_float
      stream_settings (txt "MSFT") one_stream msft_book booking-KeepsBook registered-Spares refl
      stream_due
