-- ===== src/Std.antt =====
-- What the code uses of the Rust library on texts and on machine words.
pub mod Decimal
pub mod Utf8
pub mod Text
pub mod Usize
