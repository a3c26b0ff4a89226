-- ===== src/Risk.antt =====
-- The risk controls of src/risk: the emergency stop (emergency.ts), the triggers of the circuits
-- (circuits.ts) and the monitor that runs them (monitor.ts).
pub mod Emergency
pub mod Circuits
pub mod Monitor
mod Examples
