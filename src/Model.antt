-- ===== src/Model.antt =====
-- The data model of src/model.rs, a child for each type, and `align_up`, `align_down` and
-- `padded_vec`.
pub mod Architecture
pub mod Mapping
pub mod ProcessInfo
pub mod Align
pub mod Process
