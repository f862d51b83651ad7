-- ===== src/Text.antt =====
-- What Rust's standard library does with text: UTF-8, lines and words, and hexadecimal numbers. A
-- `&str` that is taken apart is the list of its characters, as code points.
pub mod Utf8
pub mod Split
pub mod Hex
