-- ===== src/Decoder.antt =====
-- `FFMPEGThreadedDecoder` (src/video/ffmpeg/threaded_decoder.cc): a worker thread that decodes the
-- packets of one queue into the frames of another.
pub mod Queue
pub mod Lines
pub mod Picture
pub mod State
pub mod Worker
pub mod Client
pub mod Steps
mod Live
mod Counts
mod Stops
mod Rest
mod Owner
mod Reached
mod Packed
mod Tests
