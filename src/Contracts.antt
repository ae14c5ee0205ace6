-- ===== src/Contracts.antt =====
-- The models that the services exchange (contracts/python/trade_contracts).
pub mod Enums
pub mod TickSize
pub mod Risk
pub mod Time
pub mod Ids
pub mod Signal
pub mod Order
pub mod EventPaper
pub mod ScannerGate
