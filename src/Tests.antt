-- ===== src/Tests.antt =====
-- The theorems at concrete inputs, over a table that is kept in memory.
mod Adapter
mod Commands
mod Connections
mod Database
mod Interleavings
mod Memory
mod Races
mod Requests
mod Migrations
mod Operations
mod Decorator
mod Exchanges
mod Gauges
mod Handlers
mod Settings
mod Whole
