-- ===== src/Mock/Turns.antt =====
-- The tasks and commands of the mock in any order.
use bifrost_platform_plugin.Prelude.{
  ℕ, ◌+◌, refl, Bool, true, false, not, List, [], ◌∷◌, Option, none, some, max, take, if◌then◌else◌,
}
use bifrost_platform_plugin.Text.{Text, txt, text_eq}
use bifrost_platform_plugin.Float.{Float}
use bifrost_platform_plugin.Effects.{Outcome, returned, raised, Env, pure, modify}
use bifrost_platform_plugin.Effects.Keep.{
  Preserves, continue-Preserves, Preserves-bind, Preserves-if,
}
use bifrost_platform_plugin.Effects.Returns.{Holds, Holds-map}
use bifrost_platform_plugin.Json.{Python, Dict}
use bifrost_platform_plugin.Redis.{Redis}
use bifrost_platform_plugin.Protocol.{CommandMessage}
use bifrost_platform_plugin.Writer.{Writer, set_opt_cache_last_refresh_ts}
use bifrost_platform_plugin.OnDemand.{OptContract, parse_opt_contract_key}
use bifrost_platform_plugin.Live.OptCache.{Waits}
use bifrost_platform_plugin.Mock.State.{
  MockGateway, MockSettings, Random, MockIo, outside, new_mock, rest_after,
}
use bifrost_platform_plugin.Mock.Ticks.{step_price, tick_round}
use bifrost_platform_plugin.Mock.OptCache.{
  write_quote, quote_parsed, quote_keys, refresh_fresh, refresh_all, refresh_opt_cache_once,
  opt_cache_round,
}
use bifrost_platform_plugin.Mock.Commands.{
  count_mock, mock_reply, mock_refresh, mock_dispatch, handle_command,
}
use bifrost_platform_plugin.Mock.Health.{health_round}
use bifrost_platform_plugin.Mock.Quotes.{IsPrice, KeepsOrder, InOrder, mock_tick-InOrder}
use bifrost_platform_plugin.Mock.Prices.{
  IsUniform, OfPrices, AllPriced, step_price-IsPrice, tick_round-Priced,
}

module _ {W : Type 0} (rds : Redis W) (py : Python) (env : Env W) (random : Random W)
    (waits : Waits W) (read_float : Text → Option Float) (settings : MockSettings) where
  -- One round of a task, or a command; `elsewhere` is what others do to the world.
  pub data MockTurn : MockGateway × W → MockGateway × W → Type 0 where
    elsewhere : (mock : MockGateway) (v w : W) → MockTurn (mock, v) (mock, w)
    ticked :
        (g : MockGateway × W) → MockTurn g (tick_round rds py env random read_float settings g).1
    cached :
        (g : MockGateway × W)
        → MockTurn g (opt_cache_round rds py env random waits read_float settings g)
    checked : (g : MockGateway × W) → MockTurn g (health_round rds py env settings g).1
    commanded :
        (g : MockGateway × W) (msg : CommandMessage)
        → MockTurn g (handle_command rds py env random waits read_float settings msg g).1

  pub data MockReach (g : MockGateway × W) : MockGateway × W → Type 0 where
    here : MockReach g g
    next : {h k : MockGateway × W} → MockReach g h → MockTurn h k → MockReach g k

  module _ (P : List (Text × Float) → Type 0)
      (stepped : (sym : Text)
        → Preserves (OfPrices P) (step_price rds py env random read_float settings sym)) where
    abbrev Priced : {A : Type 0} → MockIo W A → Type 0
    Priced m = Preserves (OfPrices P) m

    write_quote-Priced :
        (c : OptContract) (ck : Text)
        → Priced (write_quote rds py env random waits read_float settings c ck)
    unfolding write_quote outside
    write_quote-Priced c ck (mock, w) h = h

    quote_parsed-Priced :
        (ck : Text) (c : Option OptContract)
        → Priced (quote_parsed rds py env random waits read_float settings ck c)
    unfolding quote_parsed
    quote_parsed-Priced ck none = λ g h. h
    quote_parsed-Priced ck (some c) =
        Preserves-bind (OfPrices P) (write_quote rds py env random waits read_float settings c ck)
          (λ u. pure 1) (write_quote-Priced c ck) (λ u g h. h)

    quote_keys-Priced :
        (keys : List Text) → Priced (quote_keys rds py env random waits read_float settings keys)
    unfolding quote_keys
    quote_keys-Priced [] = λ g h. h
    quote_keys-Priced (ck ∷ more) =
        Preserves-bind (OfPrices P)
          (quote_parsed rds py env random waits read_float settings ck
            (parse_opt_contract_key read_float ck))
          _ (quote_parsed-Priced ck _)
          (λ n.
            Preserves-bind (OfPrices P)
              (quote_keys rds py env random waits read_float settings more) (λ k. pure (n + k))
              (quote_keys-Priced more) (λ k g h. h))

    refresh_fresh-Priced :
        (fresh : List Text)
        → Priced (refresh_fresh rds py env random waits read_float settings fresh)
    unfolding refresh_fresh outside
    refresh_fresh-Priced fresh =
        let keys = take (max 1 settings.opt.opt_cache_max_contracts) fresh in
        Preserves-bind (OfPrices P) (quote_keys rds py env random waits read_float settings keys) _
          (quote_keys-Priced keys)
          (λ n.
            Preserves-bind (OfPrices P)
              (outside (λ w. set_opt_cache_last_refresh_ts rds py env (some (env.now w)) w))
              (λ u. pure n) (λ g h. h) (λ u g h. h))

    refresh-Priced : Priced (refresh_opt_cache_once rds py env random waits read_float settings)
    unfolding refresh_opt_cache_once refresh_all
    refresh-Priced =
        Preserves-if (OfPrices P) (not settings.opt.opt_cache_enabled) _ _ (λ g h. h)
          (λ g h.
            continue-Preserves (OfPrices P)
              (refresh_fresh rds py env random waits read_float settings) _ (g.0, _)
              refresh_fresh-Priced h)

    if-OfPrices :
        (b : Bool) (x y : MockGateway × W)
        → (OfPrices P) x
        → (OfPrices P) y
        → (OfPrices P) (if b then x else y)
    if-OfPrices true x y h k = h
    if-OfPrices false x y h k = k

    opt_cache_round-OfPrices :
        (g : MockGateway × W)
        → (OfPrices P) g
        → (OfPrices P) (opt_cache_round rds py env random waits read_float settings g)
    unfolding opt_cache_round
    opt_cache_round-OfPrices (mock, w) h =
        if-OfPrices (not settings.opt.opt_cache_enabled) _ _ h (refresh-Priced (mock, w) h)

    rest_after-Priced : (seconds : ℕ) (r : Outcome (Unit {0})) → Priced (rest_after env seconds r)
    unfolding rest_after
    rest_after-Priced seconds (returned done) g h = h
    rest_after-Priced seconds (raised e) g h = h

    reply-Priced :
        (data_of : MockGateway → Float → Dict)
        → Priced (mock_reply rds py env random waits read_float settings data_of)
    unfolding mock_reply
    reply-Priced data_of g h = h

    mock_refresh-Priced : Priced (mock_refresh rds py env random waits read_float settings)
    unfolding mock_refresh
    mock_refresh-Priced =
        Preserves-if (OfPrices P) (not settings.opt.opt_cache_enabled) _ _ (λ g h. h)
          (Preserves-bind (OfPrices P)
            (refresh_opt_cache_once rds py env random waits read_float settings) _ refresh-Priced
            (λ n g h. h))

    mock_dispatch-Priced :
        (op : Text) (payload : Dict)
        → Priced (mock_dispatch rds py env random waits read_float settings op payload)
    unfolding mock_dispatch
    mock_dispatch-Priced op payload =
        Preserves-if (OfPrices P) (text_eq op (txt "ping")) _ _ (reply-Priced _) (
          Preserves-if (OfPrices P) (text_eq op (txt "disconnect_all")) _ _ (reply-Priced _) (
            Preserves-if (OfPrices P) (text_eq op (txt "reconnect_all")) _ _ (reply-Priced _) (
              Preserves-if (OfPrices P) (text_eq op (txt "fetch_accounts_snapshot")) _ _
                (reply-Priced _)
                (Preserves-if (OfPrices P) (text_eq op (txt "fetch_executions")) _ _
                  (reply-Priced _)
                  (Preserves-if (OfPrices P) (text_eq op (txt "fetch_bars")) _ _ (reply-Priced _) (
                    Preserves-if (OfPrices P) (text_eq op (txt "fetch_option_expirations")) _ _
                      (reply-Priced _)
                      (Preserves-if (OfPrices P) (text_eq op (txt "fetch_option_snapshot")) _ _
                        (reply-Priced _)
                        (Preserves-if (OfPrices P) (text_eq op (txt "refresh_option_cache")) _ _
                          mock_refresh-Priced (λ g h. h)))))))))

    command-Priced :
        (msg : CommandMessage)
        → Priced (handle_command rds py env random waits read_float settings msg)
    unfolding handle_command count_mock
    command-Priced msg =
        Preserves-bind (OfPrices P) (modify count_mock)
          (λ u. mock_dispatch rds py env random waits read_float settings msg.op msg.payload)
          (λ g h. h) (λ u. mock_dispatch-Priced msg.op msg.payload)

    MockTurn-OfPrices : {g h : MockGateway × W} → MockTurn g h → (OfPrices P) g → (OfPrices P) h
    unfolding health_round
    MockTurn-OfPrices (elsewhere mock v w) k = k
    MockTurn-OfPrices (ticked g) k =
        tick_round-Priced rds py env random read_float settings P stepped g k
    MockTurn-OfPrices (cached g) k = opt_cache_round-OfPrices g k
    MockTurn-OfPrices (checked g) k = rest_after-Priced 10 _ (g.0, _) k
    MockTurn-OfPrices (commanded g msg) k = command-Priced msg g k

    pub MockReach-OfPrices :
        {g h : MockGateway × W} → MockReach g h → (OfPrices P) g → (OfPrices P) h
    MockReach-OfPrices here k = k
    MockReach-OfPrices (next r t) k = MockTurn-OfPrices t (MockReach-OfPrices r k)

  new_mock-AllPriced : (wr : Writer) → AllPriced (new_mock wr).prices
  unfolding new_mock
  new_mock-AllPriced wr = ((_, refl), ((_, refl), ((_, refl), ((_, refl), ((_, refl), tt)))))

  -- Where rounding keeps the order of numbers and random.uniform stays within its bounds, in every
  -- state that the mock reaches from its start, in whatever order its tasks and commands act, the
  -- price that any symbol takes next is a number that is not below 0, and the quote of it has its
  -- bid at most at its last price and that at most at its ask.
  pub mock_quotes-InOrder :
      (wr : Writer) (w : W) (h : MockGateway × W) (sym : Text)
      → KeepsOrder py
      → IsUniform random
      → MockReach (new_mock wr, w) h
      → Holds
          (λ base. IsPrice base × InOrder py base)
          (step_price rds py env random read_float settings sym h).0
  mock_quotes-InOrder wr w h sym k fair r =
      let priced =
        MockReach-OfPrices AllPriced
          (λ n g p. (step_price-IsPrice rds py env random read_float settings n g fair p).1) r
          (new_mock-AllPriced wr) in
      let s = step_price-IsPrice rds py env random read_float settings sym h fair priced in
      Holds-map (step_price rds py env random read_float settings sym h).0
        (λ base p. (p, mock_tick-InOrder py base k p)) s.0
