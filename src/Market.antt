-- ===== src/Market.antt =====
-- The falsification market: src/popperpad/core/market.py and market_invariants.py.
pub mod Types
pub mod Commands
pub mod Json
pub mod Lookup
pub mod Evidence
pub mod Admit
pub mod Handlers
pub mod Invariants
pub mod Apply
pub mod Authority
pub mod Commits
pub mod Lifecycle
pub mod Guards
pub mod Settlement
pub mod Solvency
pub mod Progress
pub mod Calm
pub mod Eligible
pub mod Samples
mod Examples
pub mod Ids
pub mod Closing
pub mod Conservation
pub mod Validity
