-- ===== src/DataGen/RoundTrip.antt =====
-- data_gen: the files that data_gen.c writes, read back by json_data_parser.c and bindata_reader.c.
pub mod Scans
pub mod Rows
pub mod Texts
pub mod Binary
pub mod Files
pub mod Pipeline
pub mod Estimate
pub mod Clusters
