-- ===== src/Live/Reads.antt =====
-- What the read operations of handle_command leave as it is: the sessions of the slots.
use bifrost_platform_plugin.Prelude.{
  ℕ, ◌≡◌, refl, sym, ap, ◌∙◌, true, false, not, List, [], ◌∷◌, Option, none, some, map, Bool-cases,
  inl, inr,
}
use bifrost_platform_plugin.Text.{Text, txt, text_eq, mem_text}
use bifrost_platform_plugin.Text.Laws.{text_eq→eq}
use bifrost_platform_plugin.Float.{Float, zero_f, ltb_f}
use bifrost_platform_plugin.Effects.{Outcome, returned, raised, Io, lift, modify, Env}
use bifrost_platform_plugin.Effects.Keep.{Keeps, Keeps-bind, Keeps-branch, Keeps-if}
use bifrost_platform_plugin.Json.{Dict, Python}
use bifrost_platform_plugin.Redis.{Redis}
use bifrost_platform_plugin.Protocol.{CommandMessage, read_only_ops}
use bifrost_platform_plugin.Connection.{Tws, TwsSlotConfig, SlotConnection, is_connected_state}
use bifrost_platform_plugin.Ib.{Ib}
use bifrost_platform_plugin.IbOps.Quotes.{Quote}
use bifrost_platform_plugin.OnDemand.{OptContract, parse_opt_contract_key}
use bifrost_platform_plugin.Live.State.{Gate, LiveIo, on_redis, host_slot}
use bifrost_platform_plugin.Live.OptCache.{
  OptSettings, Waits, note_slot, note_host, quote_or_none, pace, count_write, store_quote,
  mark_progress, one_quote, refresh_contract, refresh_parsed, refresh_keys, refresh_session,
  refresh_if, refresh_opt_cache_once,
}
use bifrost_platform_plugin.Live.Commands.{
  slot_name, list_field, clean_keys, health_reply, on_slot, on_host, register_if, refresh_reply,
  refresh_host, refresh_op, dispatch, count_command, handle_command,
}

-- A slot without the time of its last message.
abbrev pub session_part : TwsSlotConfig × SlotConnection → TwsSlotConfig × SlotConnection
session_part (cfg, sc) = (cfg, record sc { last_message_at = zero_f })

-- Everything of the slots but the times of their last messages.
abbrev pub sessions : {W : Type 0} → Gate W → List (TwsSlotConfig × SlotConnection)
sessions (live, w) = map session_part live.slots

note_slot-sessions :
    (name : Text) (now : Float) (slots : List (TwsSlotConfig × SlotConnection))
    → map session_part (note_slot name now slots) ≡ map session_part slots
unfolding note_slot
note_slot-sessions name now [] = refl
note_slot-sessions name now ((cfg, sc) ∷ slots) = elim (Bool-cases (text_eq name cfg.slot)) [
  | inl same ↦ rw same refl
  | inr other ↦ rw other (ap (λ l. session_part (cfg, sc) ∷ l) (note_slot-sessions name now slots))
]

module _ {W : Type 0} (rds : Redis W) (py : Python) (env : Env W) (api : Ib W) (waits : Waits W)
    (read_float : Text → Option Float) (settings : OptSettings) where
  pace-sessions :
      (more : List Text) (g : Gate W)
      → sessions (pace rds py env api waits read_float settings more g) ≡ sessions g
  unfolding pace
  pace-sessions [] g = refl
  pace-sessions (ck ∷ more) (live, w) =
      elim (Bool-cases (ltb_f zero_f settings.opt_cache_pacing_sec)) [
        | inl wait ↦ rw wait refl
        | inr go ↦ rw go refl
      ]

  count_write-sessions :
      (r : Outcome (Unit {0})) (g : Gate W)
      → sessions (count_write rds py env api waits read_float settings r g).1 ≡ sessions g
  unfolding count_write note_host
  count_write-sessions (returned u) (live, w) =
      note_slot-sessions (txt "host") (env.now w) live.slots
  count_write-sessions (raised e) g = refl

  store_quote-sessions :
      (c : OptContract) (ck : Text) (q : Option Quote) (g : Gate W)
      → sessions (store_quote rds py env api waits read_float settings c ck q g).1 ≡ sessions g
  unfolding store_quote
  store_quote-sessions c ck none g = refl
  store_quote-sessions c ck (some q) (live, w) = count_write-sessions _ _

  refresh_contract-sessions :
      (ib : ℕ) (ck : Text) (more : List Text) (c : OptContract) (g : Gate W)
      → sessions (refresh_contract rds py env api waits read_float settings ib ck more c g).1
        ≡ sessions g
  unfolding refresh_contract mark_progress
  refresh_contract-sessions ib ck more c (live, w) =
      pace-sessions more _
      ∙ store_quote-sessions c ck
          (quote_or_none (one_quote rds py env api waits read_float settings ib c w).0)
          (mark_progress rds py env api waits read_float settings
            (live, (one_quote rds py env api waits read_float settings ib c w).1))

  refresh_parsed-sessions :
      (ib : ℕ) (ck : Text) (more : List Text) (p : Option OptContract) (g : Gate W)
      → sessions (refresh_parsed rds py env api waits read_float settings ib ck more p g).1
        ≡ sessions g
  unfolding refresh_parsed
  refresh_parsed-sessions ib ck more none g = refl
  refresh_parsed-sessions ib ck more (some c) g = refresh_contract-sessions ib ck more c g

  refresh_keys-sessions :
      (ib : ℕ) (keys : List Text) (g : Gate W)
      → sessions (refresh_keys rds py env api waits read_float settings ib keys g).1 ≡ sessions g
  unfolding refresh_keys
  refresh_keys-sessions ib [] g = refl
  refresh_keys-sessions ib (ck ∷ more) g =
      let p = parse_opt_contract_key read_float ck in
      refresh_keys-sessions ib more
        (refresh_parsed rds py env api waits read_float settings ib ck more p g).1
      ∙ refresh_parsed-sessions ib ck more p g

  refresh_if-sessions :
      (ib : Option ℕ) (g : Gate W)
      → sessions (refresh_if rds py env api waits read_float settings ib g).1 ≡ sessions g
  unfolding refresh_if refresh_session
  refresh_if-sessions none g = refl
  refresh_if-sessions (some ib) (live, w) = refresh_keys-sessions ib _ _

  pub refresh-sessions :
      (host : TwsSlotConfig × SlotConnection) (g : Gate W)
      → sessions (refresh_opt_cache_once rds py env api waits read_float settings host g).1
        ≡ sessions g
  unfolding refresh_opt_cache_once
  refresh-sessions (cfg, sc) g = elim (Bool-cases (is_connected_state sc.state)) [
    | inl up ↦ rw up (refresh_if-sessions sc.ib g)
    | inr down ↦ rw down refl
  ]

-- A read operation is none of the others.
absurd_read :
    {A : Type 0} (op other : Text)
    → mem_text other read_only_ops ≡ false
    → mem_text op read_only_ops ≡ true
    → text_eq op other ≡ true
    → A
absurd_read op other no_read read same =
    let e = text_eq→eq op other same in
    let both : true ≡ false = sym read ∙ ap (λ t. mem_text t read_only_ops) e ∙ no_read in cc

module _ {W : Type 0} (rds : Redis W) (py : Python) (env : Env W) (tws : Tws W) (api : Ib W)
    (waits : Waits W) (strftime : Float → Text) (read_float : Text → Option Float)
    (settings : OptSettings) where
  abbrev pub Safe : {A : Type 0} → LiveIo W A → Type 0
  Safe m = Keeps sessions m

  pub on_slot-Keeps :
      (payload : Dict) (read : ℕ → Io W Dict)
      → Safe (on_slot rds py env tws api waits strftime read_float settings payload read)
  unfolding on_slot on_redis
  on_slot-Keeps payload read (live, w) =
      Keeps-bind sessions (lift (slot_name payload)) _ (λ g. refl) (λ name g. refl) (live, w)

  pub on_host-Keeps :
      (read : ℕ → Io W Dict)
      → Safe (on_host rds py env tws api waits strftime read_float settings read)
  unfolding on_host on_redis
  on_host-Keeps read (live, w) = refl

  refresh_reply-Keeps :
      (host : TwsSlotConfig × SlotConnection)
      → Safe (refresh_reply rds py env tws api waits strftime read_float settings host)
  unfolding refresh_reply
  refresh_reply-Keeps host g = refresh-sessions rds py env api waits read_float settings host g

  pub refresh_host-Keeps :
      (payload : Dict) (host : Option (TwsSlotConfig × SlotConnection))
      → Safe (refresh_host rds py env tws api waits strftime read_float settings payload host)
  unfolding refresh_host on_redis
  refresh_host-Keeps payload none = λ g. refl
  refresh_host-Keeps payload (some host) =
      Keeps-if sessions (not settings.opt_cache_enabled) _ _ (λ g. refl)
        (Keeps-bind sessions
          (on_redis (
            register_if rds py env tws api waits strftime read_float settings
              (clean_keys py (list_field (txt "contract_keys") payload))))
          _ (λ g. refl) (λ r. refresh_reply-Keeps host))

  dispatch-Keeps :
      (op : Text) (payload : Dict)
      → mem_text op read_only_ops ≡ true
      → Safe (dispatch rds py env tws api waits strftime read_float settings op payload)
  unfolding dispatch refresh_op health_reply mem_text text_eq
  dispatch-Keeps op payload reads =
      Keeps-if sessions (text_eq op (txt "ping")) _ _ (λ g. refl)
        (Keeps-branch sessions (text_eq op (txt "disconnect_all")) _ _
          (λ e. absurd_read op (txt "disconnect_all") refl reads e)
          (λ e.
            Keeps-branch sessions (text_eq op (txt "reconnect_all")) _ _
              (λ e. absurd_read op (txt "reconnect_all") refl reads e)
              (λ e.
                Keeps-if sessions (text_eq op (txt "fetch_accounts_snapshot")) _ _
                  (on_slot-Keeps payload _)
                  (Keeps-if sessions (text_eq op (txt "fetch_executions")) _ _
                    (on_slot-Keeps payload _)
                    (Keeps-if sessions (text_eq op (txt "fetch_bars")) _ _ (on_host-Keeps _) (
                      Keeps-if sessions (text_eq op (txt "fetch_option_expirations")) _ _
                        (on_host-Keeps _)
                        (Keeps-if sessions (text_eq op (txt "fetch_option_snapshot")) _ _
                          (on_host-Keeps _)
                          (Keeps-if sessions (text_eq op (txt "refresh_option_cache")) _ _
                            (λ g. refresh_host-Keeps payload (host_slot g.0) g) (λ g. refl)))))))))

  -- A read operation leaves the sessions as they are, whatever Redis and TWS answer.
  pub read_command-Keeps :
      (msg : CommandMessage)
      → mem_text msg.op read_only_ops ≡ true
      → Keeps sessions (handle_command rds py env tws api waits strftime read_float settings msg)
  unfolding handle_command count_command
  read_command-Keeps msg reads =
      Keeps-bind sessions (modify count_command)
        (λ u. dispatch rds py env tws api waits strftime read_float settings msg.op msg.payload)
        (λ g. refl) (λ u. dispatch-Keeps msg.op msg.payload reads)
