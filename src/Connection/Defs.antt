-- ===== src/Connection/Defs.antt =====
-- The state of a slot and the methods of SlotConnection.
pub mod State
pub mod Calls
pub use State.{
  ConnectionState, RawAccounts, TwsError, TwsSlotConfig, Tws, SlotConnection, Slot, connected,
  disconnected, reconnecting, maintenance, text_accounts, list_accounts,
}
unfoldable pub use State.{
  is_connected_state, all_digits, is_capital, is_account_id, clean_accounts, managed_accounts,
  is_empty, new_slot, client_id, enter_maintenance, exit_maintenance, error_text, or_blank,
  join_given, is_client_id_conflict, on_error, note_errors, or_else, or_last,
}
unfoldable pub use Calls.{
  note_message, session_up, sync_connection_state, hang_up_if, disconnect, probe, verify_api_alive,
  await_accounts, accept, rotate_if, reject, rejection, conclude, attempt, mark_disconnected,
  try_client, connect_loop, connect_locked, connect, rest, reconnect_step, reconnect_loop,
}
