-- ===== src/Decoder.antt =====
-- libdecoder_8086: the instruction decoder library.
pub mod Types
pub mod Maps
pub mod Bitstream
pub mod Extract
pub mod Fields
pub mod Modes
pub mod Parse
pub mod Print
pub mod Locality
pub mod Totality
pub mod Encoding
pub mod DataWord
pub mod Table
pub mod Printing
pub mod Disassemble
