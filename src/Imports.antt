-- ===== src/Imports.antt =====
-- src/popperpad/core/imports.py: the admission of a bundle by a local policy of trust.
pub mod Policy
pub mod Admission
pub mod Laws
pub mod Authority
mod Examples
