-- ===== src/Pushdown.antt =====
-- src/fdw/qual_pushdown.cc: turning WHERE clauses into Iceberg predicates.
pub mod Comparison
pub mod Like
pub mod Literal
pub mod Bounds
pub mod Timestamp
pub mod Constants
pub mod Walk
pub mod Meaning
pub mod Keys
pub mod Renders
pub mod Compared
pub mod Patterns
pub mod Operands
pub mod Clauses
pub mod Elements
pub mod Arrays
pub mod Truths
pub mod Sound
pub mod Scanned
