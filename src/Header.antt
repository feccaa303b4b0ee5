-- ===== src/Header.antt =====
-- header.rs: cards, their keywords and values.
pub mod Text
pub mod Value
pub mod Build
pub mod Trim
pub mod Quoted
pub mod Parts
pub mod Chain
pub mod Single
pub mod Strings
pub mod Keyword
pub mod Edit
pub mod Found
pub mod Written
pub mod SetGet
pub mod Removed
pub mod Protected
pub mod Delete
pub mod Disk
mod Tests
