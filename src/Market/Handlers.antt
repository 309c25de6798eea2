-- ===== src/Market/Handlers.antt =====
-- src/popperpad/core/market.py: one module for each group of command handlers.
pub mod Funding
pub mod Submissions
pub mod Challenges
pub mod Advance
pub mod Settle
