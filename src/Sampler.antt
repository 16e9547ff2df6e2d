-- ===== src/Sampler.antt =====
-- src/sampler: the order in which a video loader visits the batches of its files.
pub mod Batches
pub mod Ordered
pub mod FileOrder
mod Compare
mod Tests
