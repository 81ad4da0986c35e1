-- ===== src/Array.antt =====
-- src/array: ranges of memory and growing buffers.
pub mod Buffer
pub mod Range
mod Runs
