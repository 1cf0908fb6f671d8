-- ===== src/Standalone/Agreement.antt =====
-- decoder_8086/decoder.c against libdecoder_8086/libdecoder.c, on encodings of the 8086 manual.
pub mod Text
pub mod RegisterMemory
pub mod Immediate
pub mod Short
pub mod Segment
pub mod Forms
pub mod Missized
