-- ===== src/Dsa.antt =====
-- The directory `dsa/`: the containers and algorithms that the kernel is built on.
pub mod Bitmap
pub mod List
pub mod Ringbuf
pub mod Search
pub mod Sort
