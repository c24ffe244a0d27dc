-- ===== src/Query.antt =====
-- crates/query/src/plan: the tables of a data set, the relations between them, the plan of a query
-- and the writer of its result.
pub mod Panics
pub mod Rows
pub mod Exp
pub mod Table
pub mod Rel
pub mod Plan
pub mod Writer
