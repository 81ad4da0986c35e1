-- ===== src/Dzip.antt =====
-- src/dzip: a compressor. A stream is a sequence of chunks that stand alone; a chunk is a header
-- and commands, each of which copies bytes from the chunk or from what was already written.
pub mod Format
pub mod Deflate
pub mod Inflate
pub mod Command
pub mod Decodes
pub mod Stream
pub mod Safety
pub mod Chunk
pub mod Loop
pub mod Encoder
pub mod Match
pub mod Commands
mod Runs
