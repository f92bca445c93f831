-- ===== src/Parser.antt =====
-- asatsuyu/crates/asatsuyu-parser/src: the parser that builds a lossless tree from tokens.
pub mod Debug
pub mod TokenSet
pub mod State
pub mod Monad
pub mod Core
pub mod Grammar
pub mod Trace
pub mod Steps
pub mod Recovery
pub mod Rules
pub mod SourceFile
pub mod EndOfInput
pub mod Errors
