-- ===== src/Lib.antt =====
-- A model of the compiler of the language Asatsuyu, which compiles to Python.
--
-- The compiler reads a source file through a lexer and a lossless parser (kinds, keywords and spans
-- in asatsuyu/crates/asatsuyu-syntax), lowers the tree to a typed surface tree and to the HIR, in
-- which names are resolved (asatsuyu-hir), checks the types with inference by unification and the
-- coverage of matches (asatsuyu-ty), and emits Python. Beside the types, the HIR is analysed for
-- effects, and imported Python modules get a trust level.
--
-- Parts and files:
-- - Syntax: `SyntaxKind`, its numbers and its ranges (Syntax/Kind, from syntax_kind.rs), the keyword
--   table (Syntax/Keyword, from keyword.rs), spans and the line index (Syntax/Span, from span.rs),
--   and diagnostics (Syntax/Diagnostic, from diagnostic.rs), all under
--   asatsuyu/crates/asatsuyu-syntax/src.
-- - Lexer: asatsuyu/crates/asatsuyu-lexer/src/lib.rs. The tokenizer is generated by a library, and is
--   a parameter: `lex` takes the list of its results (`Piece`), with their ranges and slices.
-- - Parser: asatsuyu/crates/asatsuyu-parser/src. Parser/TokenSet, State and Core are parser.rs: the
--   slice of tokens is held as the part from `pos` on, and the tree builder, which is a library's, as
--   the list of the calls made of it. A step takes the parser and returns an outcome (Parser/Monad):
--   a new parser, a panic where `bump` asserts that the input has not ended, or the end of the fuel.
--   Parser/Grammar, with Patterns, Exprs, Items and TopLevel below it, is grammar.rs, one function
--   per rule, and `parse` of lib.rs; a loop that several rules share is one function with the item as
--   argument, and the debug assertions of `parse_type_body` are left out. The proofs: Trace says what
--   a step keeps of the tokens and the calls, Steps and Recovery prove it of the steps, Rules with its
--   children of the rules, SourceFile of a whole file and Errors of `parse`; EndOfInput is about
--   the assertion of `bump`.
-- - Types, Thir: the types, type schemes, typed literals, patterns and match arms of
--   asatsuyu/crates/asatsuyu-ty/src/types.rs.
-- - Infer: the inference context of asatsuyu/crates/asatsuyu-ty/src/unify.rs. The substitution is a
--   function, and each `&mut self` operation takes a context and returns one; a failed `unify`
--   returns the bindings made before the error. The lemmas are split by what they show: Agree and
--   Sound (the types agree), Resolve, Solution (no solution is lost), Below, Finite and WellFormed
--   (the invariant), Settle and Halts (termination), Schemes (generalization and instantiation).
-- - Coverage: `check_match_coverage` and the three checks below it, from
--   asatsuyu/crates/asatsuyu-ty/src/check.rs. The reports are a list of values in place of the
--   diagnostics that the source pushes. Values says which values a pattern matches; the test of a
--   literal pattern is a parameter, since its meaning lies in the Python that runs.
-- - Hir, Ast: the data of asatsuyu/crates/asatsuyu-hir/src/types.rs and of
--   asatsuyu/crates/asatsuyu-ast/src/types.rs.
-- - Lower: asatsuyu/crates/asatsuyu-hir/src/lower.rs, and `lower_to_hir` of lib.rs beside it (Entry).
--   A step takes the context, which has the arena as a list and the scopes innermost first, and
--   returns none where the source panics (Context); Exprs has patterns and expressions, Modules the
--   functions, types, imports and passes. `new_ctx` is the context after the allocations of `new`.
--   Desugar and ReadBack say what a lowered expression stands for, and Scoping and Declared what
--   lexical scoping says of names alone. The proofs: Trace carries what a step keeps of the arena
--   and the scopes through every construct, Tells what a step reports, and Verdict joins both with
--   the purity check.
-- - Purity: asatsuyu/crates/asatsuyu-hir/src/purity.rs. `visit` and `visit_callee` are one function
--   with a position; the work list of `propagate` is a stack with its top first. Purity/Check
--   has `effect_path` and `check`, whose diagnostics are values that hold what the message says.
--   Purity/Effects describes on the syntax alone what counts as an effect in a body and which
--   functions it calls by name. An expression counts as an effect if it is `try`, `await`, a read of
--   an attribute of a Python module, or a call of `println`, of an import, a parameter or a local
--   binding, of a member of one of these three or of a function, or of anything that is no name and
--   no member of one. A function that is passed as a value, as in `list.map(println)`, is
--   not a call, as in the source.
-- - Ffi: model.rs and admissibility.rs of asatsuyu/crates/asatsuyu-hir/src/ffi.
-- - Lsp: the semantic tokens and the diagnostics that asatsuyu/crates/asatsuyu-cli/src/lsp hands to an
--   editor (semantic_tokens.rs, convert.rs); Positions decodes the tokens.
-- - Base: list, option and number helpers over native numbers; Tests: runs on concrete inputs.
--
-- Bounds and fuel: offsets are `u32` and wrap at 2^32. The counter of inference variables is `u32` too:
-- it wraps here, as in a release build (a debug build panics there), and the theorems on allocation
-- assume that it does not reach the bound. `shallow_resolve`, `resolve`, `occurs_in` and
-- `unify` follow bindings, and recurse on fuel that bounds the depth of the calls; in a well-formed
-- context, which every operation keeps, some fuel is enough and more changes nothing. The loop of
-- `propagate` has as many rounds as there are functions, which is enough since a function becomes
-- effectful at most once; `effect_path` follows each function once.
--
-- A rule of the parser takes fuel for the depth of its calls, one unit for each rule or round of a
-- loop; `parse` gives eight for each token and eight more. Between two tokens that are consumed there
-- are at most seven nested rules and rounds, so that this is enough.
--
-- Not modelled: the rules of the tokenizer, the tree that the calls build, the lowering of that tree
-- to the syntax tree, the checks of expressions and declarations, the message texts of the purity
-- check, the lookup of Python stubs, the Python backend, the formatter, the command line and the rest
-- of the language server. They are files, text and protocol, or build on the parts that are modelled.
pub mod Base
pub mod Syntax
pub mod Lexer
pub mod Parser
pub mod Types
pub mod Infer
pub mod Thir
pub mod Coverage
pub mod Hir
pub mod Ast
pub mod Purity
pub mod Lower
pub mod Ffi
pub mod Lsp
pub mod Tests
