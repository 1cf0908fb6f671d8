-- ===== src/DataGen.antt =====
-- data_gen: the generator of coordinate pairs, the JSON parser and the binary reader.
pub mod Doubles
pub mod Scan
pub mod Items
pub mod Store
pub mod Parse
pub mod Generate
pub mod Average
pub mod Reader
pub mod Refine
pub mod RoundTrip
