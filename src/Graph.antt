-- ===== src/Graph.antt =====
-- The claim graph of src/popperpad/core/graph.py: the status of a hypothesis, and transfer paths.
pub mod Types
pub mod Status
pub mod Transfer
mod Examples
