-- ===== src/Examples.antt =====
-- Runs of the code at concrete inputs, and the theorems applied to them.
mod Fixtures
mod Values
mod Schemas
mod Sealing
mod Stores
mod Clients
mod Upkeep
mod Requests
mod Searches
mod Engines
