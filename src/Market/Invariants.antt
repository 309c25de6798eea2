-- ===== src/Market/Invariants.antt =====
-- src/popperpad/core/market_invariants.py: the projection of a state to its violations.
pub mod Codes
pub mod Fields
pub mod Relations
