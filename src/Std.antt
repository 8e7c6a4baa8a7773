-- ===== src/Std.antt =====
-- What the source uses of Rust's standard library on texts and integers.
pub mod Text
pub mod Unicode
pub mod Decimal
