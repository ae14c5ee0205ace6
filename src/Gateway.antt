-- ===== src/Gateway.antt =====
-- services/gateway: the risk checks of a unified signal and the order that is built from it.
pub mod Config
pub mod KillSwitch
pub mod Lots
pub mod Validator
pub mod ExecutionGate
pub mod Builder
pub mod Routing
pub mod Runner
