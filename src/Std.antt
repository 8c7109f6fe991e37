-- ===== src/Std.antt =====
-- What the source uses of Rust's standard library: maps, texts, numbers in text, UTF-8.
pub mod Keys
pub mod HashMap
pub mod Numbers
pub mod Str
pub mod Words
pub mod Sort
pub mod FilePath
