-- ===== src/DataGen/Store.antt =====
-- data_gen/json_data_parser.c: where parse_file keeps the items, and what calculate_haversine_average
-- visits. There are two stores: the preallocated array and the linked list.
pub mod Arrays
pub mod Linked
pub mod Elements
pub mod Chain
pub mod Room
