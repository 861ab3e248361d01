-- ===== src/Gateway.antt =====
-- internal/gateway: admission of requests to the accounts of a pool.
pub mod Classify
pub mod Route
pub mod Quota
pub mod State
pub mod Admission
pub mod Health
pub mod ModelRuntime
pub mod Service
pub mod Members
pub mod Lease
pub mod Balance
pub mod Catalog
pub mod Affinity
pub mod Selection
pub mod Retry
pub mod Recheck
pub mod Queue
pub mod Availability
