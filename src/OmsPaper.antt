-- ===== src/OmsPaper.antt =====
-- services/oms-paper: simulated fills and the positions that they change.
pub mod Models
pub mod Fill
pub mod Calendar
pub mod Position
pub mod Monitor
pub mod Closeout
pub mod Scheduler
