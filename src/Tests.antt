-- ===== src/Tests.antt =====
-- Runs of the definitions on concrete data, and the theorems applied to them.
mod Schedules
mod Locks
mod Netting
mod Trades
mod Slots
mod Decoding
mod Fetches
mod Stages
mod Pools
mod Limits
mod Archives
mod Routes
mod Depths
mod Invariants
mod Finishes
mod Openings
mod Wholes
