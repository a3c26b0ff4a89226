-- ===== src/Risk/Emergency.antt =====
-- src/risk/emergency.ts: the L3 emergency stop. The map of latches and the table `risk_events` are
-- the state; logs and alerts are left out. `trim` is JavaScript's `String.prototype.trim`.
mod Latches
mod Scopes
mod Transitions
pub mod Severity
pub mod Latching
pub mod Draining
pub mod Restart
pub mod Clearing
unfoldable pub use Latches.*
unfoldable pub use Scopes.*
unfoldable pub use Transitions.*
