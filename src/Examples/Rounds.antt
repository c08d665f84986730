-- ===== src/Examples/Rounds.antt =====
-- Rounds of the loops over two slots that manage the same account.
use bifrost_platform_plugin.Prelude.{inr, ℕ, ◌≡◌, refl, [], ◌∷◌, true, false, List, none, pos}
use bifrost_platform_plugin.Text.{txt, get}
use bifrost_platform_plugin.Float.{fin, zero_f, sub_f}
use bifrost_platform_plugin.Connection.{is_connected_state, TwsSlotConfig, SlotConnection}
use bifrost_platform_plugin.Live.Orders.{is_given, is_recent, refresh_order_reads}
use bifrost_platform_plugin.Live.MarketData.{StreamSettings, Feed}
use bifrost_platform_plugin.Live.Accounts.{gather}
use bifrost_platform_plugin.Live.Sessions.{IsGathered, gather-IsGathered}
use bifrost_platform_plugin.Live.Market.{Market, Tickers, snapshot_body}
use bifrost_platform_plugin.Live.Absent.{failed_reads_omitted}
use bifrost_platform_plugin.Examples.Doubles.{refused, still, codec}
use bifrost_platform_plugin.Examples.Slots.{accepting, host_cfg}
use bifrost_platform_plugin.Examples.Healing.{one_slot, writer}
use bifrost_platform_plugin.Examples.Rows.{session, view}
use bifrost_platform_plugin.Examples.Feeds.{no_reads, slot_up, filled}

abbrev second_cfg : TwsSlotConfig
second_cfg = record host_cfg { slot = txt "secondary" }

abbrev both_up : List (TwsSlotConfig × SlotConnection)
both_up = (host_cfg, slot_up) ∷ (second_cfg, slot_up) ∷ []

gather-IsGathered_example :
    IsGathered codec (gather accepting codec session (λ seconds m. m) both_up ([], []) 0).0.gathered
gather-IsGathered_example = gather-IsGathered accepting codec session (λ seconds m. m) both_up 0

-- The orders were not read yet.
cache_old : is_recent (fin (pos 1000000)) (record filled { open_orders = none }) ≡ false
unfolding is_recent is_given sub_f
cache_old = refl

failed_reads_omitted_example :
    let body =
      snapshot_body one_slot []
        (refresh_order_reads no_reads still
          ((host_cfg, slot_up) ∷ [])
          (record filled { open_orders = none })
          0).0 in
    (get (txt "open_orders") body ≡ none) × (get (txt "last_execution_rows") body ≡ none)
failed_reads_omitted_example =
    failed_reads_omitted no_reads still [] [] host_cfg slot_up 0
      (record filled { open_orders = none }) 0 one_slot [] refl (unfold is_connected_state in refl)
      (inr (λ w. (refused, refl))) cache_old

abbrev pub feed : Feed ℕ
feed = record { request = λ ib symbol w. (true, w); cancel = λ ib symbol w. w }

abbrev pub tickers : Tickers ℕ
tickers symbol w = (view, none)

abbrev pub stream_settings : StreamSettings
stream_settings = record {
  watchlist_symbols = txt "SPY" ∷ [];
  on_demand_max_age_sec = fin (pos 60000000);
  max_stream_stk = 5;
  on_demand_reconcile_sec = fin (pos 5000000);
}

abbrev pub market : Market
market = record {
  live = record one_slot { slots = both_up };
  last_reconcile_at = zero_f;
  orders = filled;
  writer = writer;
}
