-- ===== src/Live/Commands.antt =====
-- handle_command and health_dict: the commands of the live gateway.
use bifrost_platform_plugin.Prelude.{
  ℕ, ◌+◌, Bool, true, false, not, ◌||◌, List, [], ◌∷◌, ◌++◌, Option, none, some, if◌then◌else◌, ℤ,
  pos, map,
}
use bifrost_platform_plugin.Text.{Text, txt, strip, upper, text_eq}
use bifrost_platform_plugin.Float.{Float, fin, sub_f}
use bifrost_platform_plugin.Effects.{
  value_error, other, Outcome, returned, raised, Io, pure, lift, modify, ◌>>=◌, ◌>>◌, Env,
}
use bifrost_platform_plugin.Json.{
  Json, null, boolean, integer, number, string, array, object, Dict, entries_of, dicts, list_of,
  get_json, or_json, truthy, Python,
}
use bifrost_platform_plugin.Redis.{Redis}
use bifrost_platform_plugin.Protocol.{CommandMessage}
use bifrost_platform_plugin.Protocol.Reply.{ok_reply, error_reply, one}
use bifrost_platform_plugin.Connection.{Tws, TwsSlotConfig, SlotConnection, client_id}
use bifrost_platform_plugin.Ib.{Bar, Ib}
use bifrost_platform_plugin.IbOps.Accounts.{fetch_accounts_snapshot_rows}
use bifrost_platform_plugin.IbOps.Executions.{fetch_executions}
use bifrost_platform_plugin.IbOps.Snapshot.{fetch_option_snapshot, fetch_option_expirations}
use bifrost_platform_plugin.Live.State.{
  Live, Gate, LiveIo, on_redis, find_slot, state_of, slot_for_payload, usable, host_slot,
  disconnect_all, reconnect_all,
}
use bifrost_platform_plugin.Live.OptCache.{
  OptSettings, Waits, register_on_demand_opt, refresh_opt_cache_once,
}

unfoldable pub cid_json : Option (TwsSlotConfig × SlotConnection) → Json
cid_json none = null
cid_json (some (cfg, sc)) = elim (client_id cfg sc) [ none ↦ null | some cid ↦ integer cid ]

unfoldable pub is_present : Option (TwsSlotConfig × SlotConnection) → Bool
is_present none = false
is_present (some slot) = true

unfoldable pub health_dict : Python → Float → Live → Dict
health_dict py now live =
    let host = find_slot (txt "host") live.slots in
    let sec = find_slot (txt "secondary") live.slots in
    (txt "mode", string (txt "live"))
    ∷ (txt "cmd_count", integer (pos live.cmd_count))
    ∷ (txt "host_connected", boolean (state_of host))
    ∷ (txt "secondary_connected", boolean (state_of sec))
    ∷ (txt "secondary_present", boolean (is_present sec))
    ∷ (txt "host_client_id", cid_json host)
    ∷ (txt "secondary_client_id", cid_json sec)
    ∷ (
      txt "opt_cache_progress_age_sec",
      number (py.round_to 1 (sub_f now live.opt_cache_progress_at)),
    )
    ∷ (txt "opt_cache_progress_ts", number (py.round_to 3 live.opt_cache_progress_at))
    ∷ []

-- payload.get("account_slot") or "primary"; a value that is no text has no strip
unfoldable pub slot_name : Dict → Outcome Text
slot_name payload =
    elim (or_json (get_json (txt "account_slot") null payload) (string (txt "primary"))) [
      | string s ↦ returned s
      | _ ↦ raised (record { kind = other; message = txt "object has no attribute 'strip'" })
    ]

-- str(payload.get(key) or default)
unfoldable pub text_field : Python → Text → Text → Dict → Text
text_field py key default payload = py.str_of (or_json (get_json key null payload) (string default))

unfoldable pub bar_row : Bar → Dict
bar_row b =
    (txt "date", string b.date)
    ∷ (txt "open", number b.open_price)
    ∷ (txt "high", number b.high)
    ∷ (txt "low", number b.low)
    ∷ (txt "close", number b.close)
    ∷ (txt "volume", number b.volume)
    ∷ []

-- payload.get(key) or [], and [] for a value that is no list
unfoldable pub list_field : Text → Dict → List Json
list_field key payload = elim (get_json key null payload) [ array xs ↦ list_of xs | _ ↦ [] ]

-- `try: strikes.append(float(s)) except (TypeError, ValueError): pass`
unfoldable pub add_strike : Outcome Float → Outcome (List Float) → Outcome (List Float)
add_strike (returned x) (returned rest) = returned (x ∷ rest)
add_strike (returned x) (raised e) = raised e
add_strike (raised e) rest = elim e.kind [ value_error ↦ rest | _ ↦ raised e ]

unfoldable pub strikes_of : Python → List Json → Outcome (List Float)
strikes_of py [] = returned []
strikes_of py (s ∷ raw) = add_strike (py.float_of s) (strikes_of py raw)

-- [str(k).strip() for k in raw_keys if str(k).strip()]
unfoldable pub clean_keys : Python → List Json → List Text
clean_keys py [] = []
clean_keys py (k ∷ raw) =
    let rest = clean_keys py raw in
    if text_eq (strip (py.str_of k)) [] then rest else strip (py.str_of k) ∷ rest

-- The reply for an answer of fetch_option_expirations.
unfoldable pub expirations_reply : Python → Dict → Dict
expirations_reply py out =
    if truthy (get_json (txt "error") null out)
    then error_reply (py.str_of (get_json (txt "error") null out))
      ++ (txt "data", object (entries_of out)) ∷ []
    else ok_reply (object (entries_of out))

unfoldable pub session_of : Option (TwsSlotConfig × SlotConnection) → Option ℕ
session_of none = none
session_of (some (cfg, sc)) = sc.ib

unfoldable pub count_command : {W : Type 0} → Gate W → Gate W
count_command (live, w) = (record live { cmd_count = live.cmd_count + 1 }, w)

module _ {W : Type 0} (rds : Redis W) (py : Python) (env : Env W) (tws : Tws W) (api : Ib W)
    (waits : Waits W) (strftime : Float → Text) (read_float : Text → Option Float)
    (settings : OptSettings) where
  -- {"ok": True, "data": self.health_dict()}
  unfoldable pub health_reply : LiveIo W Dict
  health_reply (live, w) =
      (returned (ok_reply (object (entries_of (health_dict py (env.now w) live)))), (live, w))

  -- A read of a session: the reply, or `error` where there is no session.
  unfoldable pub read_with : Text → (ℕ → Io W Dict) → Option ℕ → Io W Dict
  read_with error read none = pure (error_reply error)
  read_with error read (some ib) = read ib

  unfoldable pub accounts_op : ℕ → Io W Dict
  accounts_op ib = fetch_accounts_snapshot_rows api ib >>= λ rows.
      pure (ok_reply (one (txt "accounts") (dicts rows)))

  unfoldable pub executions_op : Dict → ℕ → Io W Dict
  executions_op payload ib =
      lift (py.int_of (or_json (get_json (txt "days") null payload) (integer (pos 7)))) >>= λ days.
      fetch_executions api env strftime read_float ib days [] true >>= λ rows.
      pure (ok_reply (one (txt "executions") (dicts rows)))

  unfoldable pub bars_of : ℕ → Text → Dict → Io W Dict
  bars_of ib symbol payload =
      api.bars ib symbol (text_field py (txt "duration") (txt "1 D") payload)
        (text_field py (txt "period") (txt "1 day") payload)
      >>= λ bars. pure (ok_reply (one (txt "bars") (dicts (map bar_row bars))))

  unfoldable pub symbol_field : Dict → Text
  symbol_field payload = upper (strip (text_field py (txt "symbol") [] payload))

  unfoldable pub bars_op : Dict → ℕ → Io W Dict
  bars_op payload ib =
      if text_eq (symbol_field payload) []
      then pure (error_reply (txt "missing_symbol"))
      else bars_of ib (symbol_field payload) payload

  unfoldable pub expirations_op : Dict → ℕ → Io W Dict
  expirations_op payload ib =
      if text_eq (symbol_field payload) []
      then pure (error_reply (txt "missing_symbol"))
      else (fetch_option_expirations api waits.sleep ib (symbol_field payload) >>= λ out.
          pure (expirations_reply py out))

  unfoldable pub snapshot_of : ℕ → Text → Text → List Float → ℤ → Float → Io W Dict
  snapshot_of ib symbol expiration strikes max_contracts pacing_sec =
      if text_eq symbol [] || text_eq expiration []
      then pure (error_reply (txt "missing_symbol_or_expiration"))
      else (fetch_option_snapshot api waits.sleep ib symbol expiration strikes max_contracts
            pacing_sec
          >>= λ r. pure (ok_reply (object (entries_of (snapshot_fields r)))))
    where
      price_json : Option Float → Json
      price_json none = null
      price_json (some p) = number p

      snapshot_fields : List Dict × Option Float → Dict
      snapshot_fields r = (txt "rows", dicts r.0) ∷ (txt "underlying_price", price_json r.1) ∷ []

  unfoldable pub snapshot_op : Dict → ℕ → Io W Dict
  snapshot_op payload ib = lift (strikes_of py (list_field (txt "strikes") payload)) >>= λ strikes.
      lift (py.int_of (or_json (get_json (txt "max_contracts") null payload) (integer (pos 20))))
      >>= λ max_contracts.
          lift (
            py.float_of
              (or_json (get_json (txt "pacing_sec") null payload) (number (fin (pos 350000)))))
          >>= snapshot_of ib (symbol_field payload)
              (strip (text_field py (txt "expiration") [] payload)) strikes max_contracts

  -- A read of the slot that the payload names, in its state at the call.
  unfoldable pub on_slot : Dict → (ℕ → Io W Dict) → LiveIo W Dict
  on_slot payload read (live, w) =
      (lift (slot_name payload) >>= λ name. on_redis (
          read_with (txt "slot_not_connected") read
            (session_of (usable (slot_for_payload name live.slots)))))
        (live, w)

  unfoldable pub on_host : (ℕ → Io W Dict) → LiveIo W Dict
  on_host read (live, w) =
      on_redis (read_with (txt "host_not_connected") read (session_of (host_slot live))) (live, w)

  -- `if keys: self._register_on_demand_opt(keys)`
  unfoldable pub register_if : List Text → Io W (Unit {0})
  register_if [] = pure tt
  register_if (k ∷ keys) =
      register_on_demand_opt rds py env api waits read_float settings (k ∷ keys)

  unfoldable pub refresh_reply : TwsSlotConfig × SlotConnection → LiveIo W Dict
  refresh_reply host g =
      let r = refresh_opt_cache_once rds py env api waits read_float settings host g in
      (returned (ok_reply (one (txt "refreshed") (integer (pos r.0)))), r.1)

  unfoldable pub refresh_host : Dict → Option (TwsSlotConfig × SlotConnection) → LiveIo W Dict
  refresh_host payload none = pure (error_reply (txt "host_not_connected"))
  refresh_host payload (some host) =
      if not settings.opt_cache_enabled
      then pure (error_reply (txt "opt_cache_disabled"))
      else (on_redis (register_if (clean_keys py (list_field (txt "contract_keys") payload)))
          >>= λ r. refresh_reply host)

  unfoldable pub refresh_op : Dict → LiveIo W Dict
  refresh_op payload (live, w) = refresh_host payload (host_slot live) (live, w)

  unfoldable pub dispatch : Text → Dict → LiveIo W Dict
  dispatch op payload =
      if text_eq op (txt "ping")
      then health_reply
      else if text_eq op (txt "disconnect_all")
      then (modify (disconnect_all tws) >> health_reply)
      else if text_eq op (txt "reconnect_all")
      then (modify (reconnect_all tws) >> health_reply)
      else if text_eq op (txt "fetch_accounts_snapshot")
      then on_slot payload accounts_op
      else if text_eq op (txt "fetch_executions")
      then on_slot payload (executions_op payload)
      else if text_eq op (txt "fetch_bars")
      then on_host (bars_op payload)
      else if text_eq op (txt "fetch_option_expirations")
      then on_host (expirations_op payload)
      else if text_eq op (txt "fetch_option_snapshot")
      then on_host (snapshot_op payload)
      else if text_eq op (txt "refresh_option_cache")
      then refresh_op payload
      else pure (error_reply (txt "unsupported_op:" ++ op))

  unfoldable pub handle_command : CommandMessage → LiveIo W Dict
  handle_command msg = modify count_command >> dispatch msg.op msg.payload
