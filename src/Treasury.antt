-- ===== src/Treasury.antt =====
-- The treasury (src/treasury/): users, credit rates, the deposit watcher, service charges, the
-- backfill of credits and the operator's log, over one SQLite database.
pub mod Db
pub mod Credits
pub mod Store
pub mod Watcher
pub mod Backfill
pub mod Charges
pub mod History
pub mod OpsStore
mod Examples
