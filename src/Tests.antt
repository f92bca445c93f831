-- ===== src/Tests.antt =====
-- Runs of the definitions on small inputs, one module per component.
pub mod SyntaxTests
pub mod InferTests
pub mod CoverageTests
pub mod PurityTests
pub mod FfiTests
pub mod ParserTests
pub mod LowerTests
pub mod LspTests
