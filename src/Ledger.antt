-- ===== src/Ledger.antt =====
-- lib/task_ledger.py: the task stream's fold and the decisions on requests.
pub mod Types
pub mod Display
pub mod Deadlines
pub mod Callers
pub mod Envelope
pub mod Tasks
pub mod Fold
pub mod Fixture
mod Witness
pub mod Moves
pub mod Steps
pub mod Effects
pub mod Invariant
pub mod Evolution
pub mod Reading
pub mod Registry
pub mod Requests
pub mod Decide
pub mod Outcomes
pub mod Derived
pub mod Agreement
pub mod Accepted
pub mod Bounds
