-- ===== src/Connection/Defs/State.antt =====
-- The state of a slot, its account ids, and the texts of its errors.
use bifrost_platform_plugin.Prelude.{
  ℕ, Bool, true, false, not, ◌&&◌, ◌||◌, List, [], ◌∷◌, ◌++◌, Option, none, some, ltb, ◌==◌,
  get_elem?, if◌then◌else◌, ℤ,
}
use bifrost_platform_plugin.Text.{
  Text, txt, strip, lower, text_eq, contains, split, is_digit, show_ℤ, show_ℕ,
}
use bifrost_platform_plugin.Float.{Float, zero_f}

pub data ConnectionState : Type 0 where
  connected disconnected reconnecting maintenance : ConnectionState

-- What ib.managedAccounts() gives: a text, or a list of texts; a falsy value is the empty list.
pub data RawAccounts : Type 0 where
  text_accounts : Text → RawAccounts
  list_accounts : List Text → RawAccounts

-- The arguments of an error event: req_id, code and msg.
pub record TwsError : Type 0 where
  pub req_id : ℤ
  pub code : ℕ
  pub msg : Text

pub record TwsSlotConfig : Type 0 where
  pub slot : Text
  pub account_id : Text
  pub ip : Text
  pub port : ℤ
  pub client_ids : List ℤ
  pub has_market_data : Bool

-- The world as ib_insync and asyncio show it. Sessions are numbered. An exception that the code
-- catches at once is left out: `managed` gives `none` for it, and `hang_up` nothing.
pub record Tws (W : Type 0) : Type 0 where
  -- factory()
  pub open_session : W → ℕ × W
  -- ib.connectAsync(ip, port, clientId, timeout=30): the error events that came meanwhile, and
  -- the text of the exception if it raised one
  pub connect_async : ℕ → Text → ℤ → ℤ → W → List TwsError × Option Text × W
  pub is_connected : ℕ → W → Bool
  pub managed : ℕ → W → Option RawAccounts
  -- ib.disconnect()
  pub hang_up : ℕ → W → W
  -- ib.reqCurrentTimeAsync() within its timeout: whether it answered
  pub current_time : ℕ → W → Bool × W
  -- asyncio.sleep for some milliseconds: the error events that came meanwhile
  pub pause : ℕ → W → List TwsError × W
  -- time.time()
  pub now : W → Float

-- The fields of SlotConnection that change.
pub record SlotConnection : Type 0 where
  pub state : ConnectionState
  pub current_cid_index : ℕ
  pub ib : Option ℕ
  pub last_message_at : Float
  pub reconnects : ℕ
  pub last_error : Option Text
  pub in_maintenance : Bool

-- A slot in its world.
pub record Slot (W : Type 0) : Type 0 where
  pub conn : SlotConnection
  pub world : W

unfoldable pub is_connected_state : ConnectionState → Bool
is_connected_state connected = true
is_connected_state _ = false

unfoldable pub all_digits : Text → Bool
all_digits [] = true
all_digits (c ∷ s) = is_digit c && all_digits s

unfoldable pub is_capital : ℕ → Bool
is_capital c = not (ltb c b'A') && not (ltb b'Z' c)

-- ^[A-Z]{1,2}\d+$ on a stripped text, with ASCII digits
unfoldable pub is_account_id : Text → Bool
unfolding is_capital all_digits
is_account_id [] = false
is_account_id (a ∷ []) = false
is_account_id (a ∷ b ∷ []) = is_capital a && is_digit b
is_account_id (a ∷ b ∷ c ∷ s) =
    is_capital a && (is_digit b || is_capital b && is_digit c) && all_digits (c ∷ s)

unfoldable pub clean_accounts : List Text → List Text
clean_accounts [] = []
clean_accounts (s ∷ parts) =
    let rest = clean_accounts parts in
    if text_eq (strip s) [] then rest else if is_account_id (strip s) then strip s ∷ rest else rest

unfoldable pub managed_accounts : Option RawAccounts → List Text
managed_accounts none = []
managed_accounts (some (text_accounts [])) = []
managed_accounts (some (text_accounts (c ∷ s))) = clean_accounts (split b',' (c ∷ s))
managed_accounts (some (list_accounts parts)) = clean_accounts parts

unfoldable pub is_empty : List Text → Bool
is_empty [] = true
is_empty (a ∷ l) = false

unfoldable pub new_slot : SlotConnection
new_slot = record {
  state = disconnected;
  current_cid_index = 0;
  ib = none;
  last_message_at = zero_f;
  reconnects = 0;
  last_error = none;
  in_maintenance = false;
}

-- self.cfg.client_ids[self.current_cid_index]; `none` is an IndexError
unfoldable pub client_id : TwsSlotConfig → SlotConnection → Option ℤ
client_id cfg sc = get_elem? cfg.client_ids sc.current_cid_index

unfoldable pub enter_maintenance : SlotConnection → SlotConnection
enter_maintenance sc = record sc { in_maintenance = true; state = maintenance }

unfoldable pub exit_maintenance : SlotConnection → SlotConnection
exit_maintenance sc = record sc { in_maintenance = false }

-- f"Error {code}, reqId {req_id}: {msg}"
unfoldable pub error_text : TwsError → Text
error_text e =
    txt "Error " ++ (show_ℕ e.code ++ (txt ", reqId " ++ (show_ℤ e.req_id ++ (txt ": " ++ e.msg))))

-- p or "", for an optional text
unfoldable pub or_blank : Option Text → Text
or_blank none = []
or_blank (some s) = s

-- " ".join(p for p in parts if p)
unfoldable pub join_given : Text → Text → Text
join_given [] b = b
join_given (c ∷ a) [] = c ∷ a
join_given (c ∷ a) (d ∷ b) = (c ∷ a) ++ b' ' ∷ d ∷ b

unfoldable pub is_client_id_conflict : Text → Option Text → Bool
is_client_id_conflict err_text last_error =
    let text = lower (join_given err_text (or_blank last_error)) in
    contains (txt "326") text || contains (txt "already in use") text

-- The handler of one error event: the slot, and `cid_conflict`.
unfoldable pub on_error : TwsError → SlotConnection × Bool → SlotConnection × Bool
on_error e (sc, cid_conflict) = (
  record sc { last_error = some (error_text e) },
  (e.code == 326 || contains (txt "already in use") (lower e.msg)) || cid_conflict,
)

unfoldable pub note_errors : List TwsError → SlotConnection × Bool → SlotConnection × Bool
note_errors [] s = s
note_errors (e ∷ es) s = note_errors es (on_error e s)

-- s or t
unfoldable pub or_else : Text → Text → Text
or_else [] t = t
or_else (c ∷ s) t = c ∷ s

-- err_text or self.last_error
unfoldable pub or_last : Text → Option Text → Option Text
or_last [] last_error = last_error
or_last (c ∷ s) last_error = some (c ∷ s)
