-- ===== src/Tests.antt =====
-- Small concrete libraries, and the theorems applied to them.
pub mod Bitmaps
pub mod Store
pub mod Documents
pub mod Cluster
mod LogStores
mod Indexes
mod Databases
mod Handlers
mod Starts
mod Servers
mod Reloads
mod Fields
mod Histories
mod Running
mod Replays
mod Snapshots
mod Filters
mod Similarities
mod Annoys
