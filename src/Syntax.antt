-- ===== src/Syntax.antt =====
-- The crate asatsuyu-syntax: kinds, keywords, spans and diagnostics.
pub mod Kind
pub mod Keyword
pub mod Span
pub mod Diagnostic
