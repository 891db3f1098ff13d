-- ===== src/Quota.antt =====
-- The AIU quota of an application user: its tables, the reservations of the runtime API, the
-- settlement of the worker, and the sweeper.
pub mod Types
pub mod Store
pub mod Rules
pub mod Balance
pub mod Rows
pub mod OneRow
pub mod AllRows
pub mod Queries
pub mod Claims
pub mod Transition
pub mod Settle
pub mod Sweep
pub mod Policy
pub mod Materialize
pub mod Rollover
pub mod Reserve
mod Tests
