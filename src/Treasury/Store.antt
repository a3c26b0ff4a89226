-- ===== src/Treasury/Store.antt =====
-- src/treasury/store.ts: the access layer of the `treasury_*` tables. A transaction is written as
-- one action under `transaction`; `now_ms` is what `Date.now()` returns.
mod Users
mod Deposits
mod ServiceCharges
pub mod Ledger
pub mod Outcomes
pub mod Keeps
pub mod Charging
pub mod Registration
unfoldable pub use Users.*
unfoldable pub use Deposits.*
unfoldable pub use ServiceCharges.*
