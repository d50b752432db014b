-- ===== src/ClockSync.antt =====
-- The two clock synchronisers: tp6-algoritmo-de-berkeley, whose daemon sets everyone to the average, and
-- tp-cristian, whose clients ask for the time and add the latency.
pub mod Slots
pub mod Berkeley
pub mod Average
pub mod Cristian
pub mod Accuracy
pub mod Answers
pub mod Agreement
pub mod Daemon
pub mod Threads
pub mod MainThread
pub mod Descriptors
mod DaemonExamples
mod Examples
