-- ===== src/Tests.antt =====
-- Test data, tests and the theorems at concrete inputs.
pub mod Toy
pub mod Encodings
pub mod Indexes
pub mod Datastores
pub mod Systems
pub mod Renewals
pub mod Caches
pub mod Plugins
pub mod Listings
pub mod Commits
pub mod Multiparts
pub mod Drains
pub mod Opens
pub mod Leases
pub mod Clients
