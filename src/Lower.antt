-- ===== src/Lower.antt =====
-- asatsuyu/crates/asatsuyu-hir/src/lower.rs: from the syntax tree to the HIR, with the resolution of
-- names in lexical scopes.
pub mod Context
pub mod Exprs
pub mod Modules
pub mod Entry
pub mod Desugar
pub mod ReadBack
pub mod Scoping
pub mod Declared
pub mod Trace
pub mod Tells
pub mod Verdict
