-- ===== src/Tests.antt =====
-- Runs of the model on concrete data, with the engine that keeps its tables in memory.
pub mod Data
mod Naming
mod Cursors
mod Described
mod Selections
mod Imports
mod Schedules
mod Runs
mod Reloads
mod Pages
mod Groupings
mod Accounts
mod Restores
mod Mutating
mod Latencies
mod Sections
mod Gateways
mod Shows
mod Races
mod Controls
mod Generated
