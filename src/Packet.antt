-- ===== src/Packet.antt =====
-- hw5: raw packets. What `Sender.c`, `HW5_1.c`, `HW5_1_5.c` and `Receiver.c` share, and the way of a packet through them.
pub mod Bytes
pub mod Checksum
pub mod Headers
pub mod Frames
pub mod Modifier
pub mod Sender
pub mod Interface
pub mod Capture
pub mod Receiver
mod Pipeline
