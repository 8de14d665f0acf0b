-- ===== src/Controller.antt =====
-- discstakka/device.py: how a job runs on the worker thread.
pub mod Run
pub mod Finish
pub mod Worker
pub mod Submit
pub mod Threads
pub mod Orderly
pub mod Keep
pub mod Tending
pub mod Claims
pub mod Claiming
