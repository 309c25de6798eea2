-- ===== src/Adapter.antt =====
-- src/popperpad/core/adapter_protocol.py: requests to and responses of a transition adapter, as values
-- that commit to their content.
pub mod Types
pub mod Response
pub mod Profile
pub mod Encoding
pub mod Laws
mod Examples
