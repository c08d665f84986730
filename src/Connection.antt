-- ===== src/Connection.antt =====
-- src/bifrost_plugin/ib_gateway/connection.py: one TWS slot with client-id failover. ib_insync is
-- the parameter `Tws`. Each method is one step; Awaits cuts connect at its awaits.
mod Defs
pub mod Invariant
pub mod Connect
pub mod Awaits
pub mod Alone
pub mod Interleaved
pub mod Reach
pub mod Failover
pub mod Backoff
pub mod Automaton
pub mod Phases
pub use Defs.{
  ConnectionState, connected, disconnected, reconnecting, maintenance, RawAccounts, text_accounts,
  list_accounts, TwsError, Tws, TwsSlotConfig, SlotConnection, Slot,
}
unfoldable pub use Defs.{
  is_connected_state, is_account_id, clean_accounts, managed_accounts, session_up, new_slot,
  hang_up_if, probe, accept, rotate_if, reject, rejection, mark_disconnected, rest, or_else,
  or_last, or_blank, client_id, note_message, sync_connection_state, disconnect, verify_api_alive,
  enter_maintenance, exit_maintenance, is_client_id_conflict, error_text, on_error, note_errors,
  await_accounts, connect_locked, conclude, try_client, is_empty, attempt, connect_loop, connect,
  reconnect_step, reconnect_loop,
}
