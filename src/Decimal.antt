-- ===== src/Decimal.antt =====
-- Python's `Decimal` as the services use it, behind its operations and their laws.
mod Defs
mod Order
mod Monotone
mod Rounding
mod Truncate
unfoldable pub use Defs.*
pub use Order.*
pub use Monotone.*
pub use Rounding.*
pub use Truncate.*
