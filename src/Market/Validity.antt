-- ===== src/Market/Validity.antt =====
-- The states without violations of src/popperpad/core/market_invariants.py, as a predicate.
mod Checks
pub mod Reflect
pub mod Phases
pub mod Spec
unfoldable pub use Checks.*
