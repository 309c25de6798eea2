-- ===== src/Commit.antt =====
-- src/popperpad/core/commit.py: the plan of an atomic commit and the validation of its record.
pub mod Types
pub mod Derive
pub mod Parse
pub mod Validate
pub mod Plan
pub mod Rows
pub mod Records
pub mod Writes
pub mod Collected
pub mod RoundTrip
pub mod Binding
pub mod Logical
mod Examples
