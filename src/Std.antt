-- ===== src/Std.antt =====
-- The collections of Rust's standard library that the source uses, as lists: `HashSet<String>`,
-- `BTreeMap<u32, V>`, and the order in which a hashed collection is walked.
pub mod HashSet
pub mod BTreeMap
pub mod Walk
pub mod Split
pub mod Bytes
pub mod Decimal
pub mod Repeat
