-- ===== src/Examples.antt =====
-- Concrete runs at which the theorems apply.
pub mod Exports
pub mod Reducers
pub mod Devices
pub mod Filters
pub mod Sources
pub mod Tasks
pub mod Details
pub mod Routes
pub mod Searches
pub mod Mutations
pub mod Admin
pub mod Policies
