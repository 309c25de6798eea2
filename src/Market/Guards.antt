-- ===== src/Market/Guards.antt =====
-- What each handler of src/popperpad/core/market.py has checked when it commits.
pub mod Funding
pub mod Submissions
pub mod Challenges
pub mod Advance
pub mod Settle
