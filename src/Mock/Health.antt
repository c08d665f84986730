-- ===== src/Mock/Health.antt =====
-- _health_loop of the mock.
use bifrost_platform_plugin.Prelude.{
  ℕ, zero, suc, Bool, true, false, List, [], ◌∷◌, ◌++◌, if◌then◌else◌, pos,
}
use bifrost_platform_plugin.Text.{txt, text_eq}
use bifrost_platform_plugin.Float.{Float}
use bifrost_platform_plugin.Effects.{returned, Io, for_each, continue_with, ◌>>◌, Env}
use bifrost_platform_plugin.Json.{boolean, integer, number, string, Dict, merge, Python}
use bifrost_platform_plugin.Redis.{Redis}
use bifrost_platform_plugin.Writer.{
  write_ingestor_health, write_account_health, write_operator_health, write_plugin_health,
}
use bifrost_platform_plugin.Connection.{TwsSlotConfig}
use bifrost_platform_plugin.Mock.State.{MockGateway, MockSettings, MockIo, rest_after}

-- A slot of that name is among the settings.
unfoldable pub has_secondary : List TwsSlotConfig → Bool
has_secondary [] = false
has_secondary (s ∷ slots) =
    let rest = has_secondary slots in if text_eq s.slot (txt "secondary") then true else rest

unfoldable pub common_fields : Float → Dict
common_fields now =
    (txt "connected", boolean true)
    ∷ (txt "mode", string (txt "mock"))
    ∷ (txt "client_id", integer (pos 0))
    ∷ (txt "last_msg_ts", number now)
    ∷ (txt "msg_count", integer (pos 0))
    ∷ (txt "reconnects", integer (pos 0))
    ∷ []

-- _MOCK_CLIENT_ID if secondary_present else 0, which is 0 in both cases
unfoldable pub slot_fields : Bool → Dict
slot_fields present =
    (txt "host_connected", boolean true)
    ∷ (txt "host_client_id", integer (pos 0))
    ∷ (txt "secondary_present", boolean present)
    ∷ (txt "secondary_connected", boolean present)
    ∷ (txt "secondary_client_id", integer (pos 0))
    ∷ []

unfoldable pub operator_extra : ℕ → Dict
operator_extra cmd_count = (txt "cmd_count", integer (pos cmd_count)) ∷ []

module _ {W : Type 0} (rds : Redis W) (py : Python) (env : Env W) (settings : MockSettings) where
  unfoldable pub write_mock_slot : MockGateway → TwsSlotConfig → Io W (Unit {0})
  write_mock_slot mock cfg =
      write_plugin_health rds py env mock.writer cfg.account_id (txt "connected")
        ((txt "mode", string (txt "mock")) ∷ (txt "slot", string cfg.slot) ∷ [])

  -- The writes of one round.
  unfoldable pub mock_report : MockGateway → Float → Io W (Unit {0})
  mock_report mock now =
      let slots = slot_fields (has_secondary settings.slots) in
      write_ingestor_health rds py env mock.writer
        (merge (common_fields now) ((txt "host_connected", boolean true) ∷ []))
      >> (write_account_health rds py env mock.writer (merge (common_fields now) slots)
          >> (write_operator_health rds py env mock.writer
                (merge (common_fields now) (operator_extra mock.cmd_count ++ slots))
              >> for_each (write_mock_slot mock) settings.slots))

  -- One round, with the wait of ten seconds.
  unfoldable pub health_round : MockIo W (Unit {0})
  health_round (mock, w) =
      let told = mock_report mock (env.now w) w in rest_after env 10 told.0 (mock, told.1)

  -- At most `fuel` rounds, while the stop event is not set. An exception ends the loop.
  unfoldable pub health_loop : ℕ → MockIo W (Unit {0})
  health_loop zero g = (returned tt, g)
  health_loop (suc fuel) g =
      let done = health_round g in
      let more = continue_with (λ u. health_loop fuel) done.0 done.1 in
      if env.stopped g.1 then (returned tt, g) else more
