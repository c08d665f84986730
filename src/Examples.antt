-- ===== src/Examples.antt =====
-- The theorems applied to concrete doubles of Redis, TWS, Python and the clock.
mod Doubles
mod Commands
mod Symbols
mod Turns
mod Slots
mod Awaiting
mod Healing
mod Feeds
mod Fills
mod Rows
mod Gateway
mod Rounds
mod Startup
mod Mocking
