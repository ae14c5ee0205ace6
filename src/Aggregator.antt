-- ===== src/Aggregator.antt =====
-- services/aggregator: the merging of the strategies' signals
pub mod Consensus
