-- ===== src/Nvdec.antt =====
-- The decoder on NVIDIA's hardware (src/video/nvcodec): its setup from a format, its textures and
-- `CUThreadedDecoder`.
pub mod Format
pub mod Textures
pub mod Decoder
mod Setup
mod Cache
mod Draining
mod Drained
mod Tests
