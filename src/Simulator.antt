-- ===== src/Simulator.antt =====
-- discstakka/simulator.py: a software unit, the second implementation of the transport.
pub mod Carousel
pub mod Commands
pub mod Bus
pub mod Clock
pub mod Heap
pub mod Timers
pub mod Answers
