-- ===== src/Mock.antt =====
-- src/bifrost_plugin/ib_gateway/mock.py: the gateway without TWS, whose prices move at random.
pub mod State
pub mod Ticks
pub mod OptCache
pub mod Commands
pub mod Health
pub mod Replies
pub mod Prices
pub mod Quotes
pub mod Cache
pub mod Turns
pub mod Symbols
