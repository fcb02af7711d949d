-- ===== src/Tests.antt =====
-- Small inputs of each part, what the model computes on them, and the theorems at them.
pub mod Samples
mod Contract
mod Graphs
mod Schedules
mod Leases
mod Runs
mod Budgets
mod RunBudgets
mod Transfers
mod Scopes
mod Recoveries
