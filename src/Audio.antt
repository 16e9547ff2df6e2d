-- ===== src/Audio.antt =====
-- `AudioReader` (src/audio/audio_reader.cc): the samples of a file's first audio stream. State has
-- its fields and `Media`, the interface of what it calls.
pub mod State
pub mod Save
pub mod Decode
pub mod Output
mod Rows
mod Ends
mod Frames
mod Totals
mod Planar
mod Mono
mod Tests
