-- ===== src/OmsLive.antt =====
-- services/oms-live: broker orders, and the positions that their fills change.
pub mod Models
pub mod Parser
pub mod Position
pub mod Stops
pub mod Closeout
pub mod Reconciler
