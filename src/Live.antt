-- ===== src/Live.antt =====
-- src/bifrost_plugin/ib_gateway/live.py: the live gateway, its commands, its loops and the
-- self-healing of a stale snapshot.
pub mod State
pub mod SelfHeal
pub mod Heal
pub mod Ladder
pub mod Visits
pub mod Slots
pub mod Orders
pub mod MarketData
pub mod Book
pub mod OptCache
pub mod Accounts
pub mod Sessions
pub mod Commands
pub mod Market
pub mod Health
pub mod Absent
pub mod GatherSound
pub mod MarketSound
pub mod HealthSound
pub mod HealthOutage
pub mod Reads
pub mod Serve
pub mod CacheLaws
pub mod Replies
pub mod CommandSound
pub mod Turns
pub use State.{Live, Settings, Gate, LiveIo}
unfoldable pub use State.{
  on_redis, find_slot, state_of, slot_for_payload, host_slot, disconnect_slots, reconnect_slots,
  disconnect_all, reconnect_all, host_ok,
}
