-- ===== src/Standalone.antt =====
-- decoder_8086/decoder.c: the decoder that writes assembly text while it reads the bytes.
pub mod Extract
pub mod Moves
pub mod Regmem
pub mod Operations
pub mod Main
pub mod Agreement
pub mod Reach
pub mod Kept
pub mod Chunk
pub mod Sequences
pub mod File
pub mod Programs
pub mod Cut
pub mod Returning
pub mod Accepts
