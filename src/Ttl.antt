-- ===== src/Ttl.antt =====
-- controller/src/ttl_store: containers whose records expire. Instants and durations are numbers of
-- one unit since the epoch.
pub mod TtlList
pub mod TtlMap
pub mod Multistore
