-- ===== src/Scenarios.antt =====
-- The program at concrete inputs.
pub mod Allowances
pub mod Calendars
pub mod Entries
pub mod Factors
pub mod Leases
pub mod Notices
pub mod Outcomes
pub mod Policies
pub mod Queueing
pub mod Retries
pub mod Schedules
pub mod Selecting
pub mod Shown
