-- ===== src/Risk/Monitor.antt =====
-- src/risk/monitor.ts: Monitor/State is the state of a pool and the rows it writes, Monitor/Feed the
-- windows, Monitor/Levels the L2 and L1 circuits, Monitor/Observe the observations, Monitor/Trips the
-- conditions of L3 and Monitor/PreTick the check before a tick. A call returns the state it leaves; the clock's answer,
-- one for each call, is an argument.
pub mod State
pub mod Feed
pub mod Levels
pub mod Observe
pub mod Trips
pub mod PreTick
pub mod Calls
pub mod Hysteresis
pub mod Bounded
pub mod Stopped
pub mod Vetoes
mod Examples
