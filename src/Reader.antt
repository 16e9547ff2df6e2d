-- ===== src/Reader.antt =====
-- The reader of video_reader.cc.
pub mod State
pub mod Keyframes
pub mod Decode
pub mod Seek
pub mod Batch
pub mod Index
mod Stream
mod Held
mod Tolerance
mod Tests
