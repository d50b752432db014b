-- ===== src/Lamport.antt =====
-- tp5-algoritmo-de-lamport: processes with logical clocks that message one another.
pub mod Process
pub mod System
pub mod ClockCondition
mod Examples
