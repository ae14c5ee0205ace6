-- ===== src/Router.antt =====
-- services/opportunity-router: which candidates a registered policy lets enter
pub mod Integrity
pub mod Models
pub mod Bindings
pub mod Decision
pub mod Evaluate
pub mod Capacity
