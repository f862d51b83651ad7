-- ===== src/RustMinidump.antt =====
-- src/rust_minidump.rs: a minidump's streams become a `CrashedProcess`.
pub mod Streams
pub mod System
pub mod SharedLib
pub mod Modules
pub mod ElfFile
pub mod LinkMaps
pub mod Read
