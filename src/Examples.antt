-- ===== src/Examples.antt =====
-- A small process, and each theorem that has hypotheses applied to it or to other small inputs.
mod Segment
mod Image
mod Tables
mod Small
mod Maps
mod ElfFiles
mod Ingest
