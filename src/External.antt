-- ===== src/External.antt =====
-- The packages that the source calls and does not hold, as records of their operations with the
-- laws that their documentation states: lockfree-cuckoohash, rocksdb, serde_json.
pub mod Cuckoo
pub mod Rocks
pub mod Hasher
pub mod Serde
pub mod Uri
