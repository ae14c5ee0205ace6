-- ===== src/Gateway/Runner.antt =====
-- services/gateway/src/gateway/streaming/runner.py
pub mod Services
pub mod Handler
pub mod Gates
pub mod Caps
pub mod Sizing
pub mod Dispatch
pub mod Output
pub mod Journal
pub mod Process
pub mod Batch
pub mod Rules
pub mod Stages
pub mod Admission
pub mod JournalRule
pub mod Trace
pub mod Placing
pub mod Safety
pub mod Reservations
pub mod Deadlines
pub mod Cooldown
pub mod Batches
pub mod Counting
pub mod CapBounds
pub mod Sizes
pub mod Progress
pub mod SellStages
pub mod Exits
