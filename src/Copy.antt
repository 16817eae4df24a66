-- ===== src/Copy.antt =====
-- hw3: copies of a file, by read and write and by io_uring.
pub mod Blocking
pub mod Async
pub mod Program
