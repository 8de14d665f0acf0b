-- ===== src/Protocol.antt =====
-- discstakka/protocol.py: the HID protocol of the unit.
pub mod Packet
pub mod Handle
pub mod Waiting
pub mod Moves
pub mod Connection
pub mod Stable
pub mod Halting
pub mod Events
pub mod Replies
pub mod Termination
pub mod EmptyBay
pub mod Rotation
pub mod Confinement
pub mod Results
pub mod Link
pub mod Opening
