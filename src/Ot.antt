-- ===== src/Ot.antt =====
-- replicant-core/src/ot: paths into a document, and the transformation of concurrent operations.
pub mod Types
pub mod Segment
pub mod Path
pub mod Relation
pub mod Transform
mod Examples
