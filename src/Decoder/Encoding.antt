-- ===== src/Decoder/Encoding.antt =====
-- The decoder of libdecoder_8086/libdecoder.c against the instruction formats of the 8086 manual.
pub mod Manual
pub mod Bits
pub mod Decodes
pub mod RegisterMemory
pub mod Immediate
pub mod Jumps
pub mod Accumulator
pub mod Segment
pub mod Forms
