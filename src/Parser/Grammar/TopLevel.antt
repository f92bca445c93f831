-- ===== src/Parser/Grammar/TopLevel.antt =====
-- The rules for functions and source files of grammar.rs, and `parse` of
-- asatsuyu/crates/asatsuyu-parser/src/lib.rs.
use asatsuyu.Base.{
  ℕ, zero, suc, ◌+◌, ◌*◌, ◌%◌, Bool, true, false, not, ◌||◌, List, [], ◌∷◌, ◌++◌, length, ◌==◌, any,
}
use asatsuyu.Syntax.Kind.{
  SyntaxKind, same_kind, ident, l_paren, l_brace, arrow, fn_def, pub_kw, pure_kw, async_kw, fn_kw,
  type_kw, import_kw, from_kw, let_kw, source_file,
}
use asatsuyu.Syntax.Diagnostic.{Diagnostic, Severity, e0051, e0052, e0053, e0054, e0062}
use asatsuyu.Syntax.Span.{u32_mod}
use asatsuyu.Lexer.{Token, Piece, lex}
use asatsuyu.Parser.TokenSet.{new_set, empty}
use asatsuyu.Parser.State.{at, at_eof, nth, current}
use asatsuyu.Parser.Monad.{M, Outcome, ◌>>=◌, ◌>>◌, done, no_fuel, ask, when, branch}
use asatsuyu.Parser.Core.{
  bump, must, eat_trivia, start_node, finish_node, error_and_bump, error_recover,
  error_recover_until, new_parser,
}
use asatsuyu.Parser.Grammar.{parse_param_list, parse_return_type}
use asatsuyu.Parser.Grammar.Items.{
  parse_visibility, parse_type_def, parse_import, parse_from_python_import,
}
use asatsuyu.Parser.Grammar.Exprs.{parse_block_expr}

-- `while matches!(p.current(), PureKw | AsyncKw) { p.bump(); }`
unfoldable pub modifiers : ℕ → M (Unit {0})
unfolding bump
modifiers zero = no_fuel
modifiers (suc fuel) = branch (λ p. at pure_kw p || at async_kw p) (do bump; modifiers fuel) done

unfoldable pub parse_fn_def : ℕ → M (Unit {0})
unfolding parse_visibility modifiers must bump error_recover_until parse_param_list
    parse_return_type parse_block_expr new_set
parse_fn_def fuel = do
  start_node fn_def
  when (at pub_kw) parse_visibility
  modifiers fuel
  must fn_kw
  branch (at ident) bump (
      error_recover_until "expected function name" (new_set (l_paren ∷ l_brace ∷ arrow ∷ [])) e0052)
  branch (at l_paren) (parse_param_list fuel)
      (error_recover_until "expected parameter list" (new_set (l_brace ∷ arrow ∷ [])) e0053)
  when (at arrow) (parse_return_type fuel)
  branch (at l_brace) (parse_block_expr fuel)
      (error_recover_until "expected function body" empty e0054)
  finish_node

-- The match of `parse_top_level` on the current kind.
unfoldable pub top_level_at : ℕ → SyntaxKind → M (Unit {0})
unfolding parse_fn_def parse_type_def parse_import parse_from_python_import error_recover
top_level_at fuel fn_kw = parse_fn_def fuel
top_level_at fuel async_kw = parse_fn_def fuel
top_level_at fuel pure_kw = parse_fn_def fuel
top_level_at fuel type_kw = parse_type_def fuel
top_level_at fuel pub_kw =
    branch (λ p. same_kind (nth 1 p) type_kw) (parse_type_def fuel) (parse_fn_def fuel)
top_level_at fuel import_kw = parse_import fuel
top_level_at fuel from_kw = parse_from_python_import
top_level_at fuel let_kw = error_recover "not yet implemented" e0062
top_level_at fuel _ = error_recover "expected item definition" e0051

unfoldable pub parse_top_level : ℕ → M (Unit {0})
unfolding top_level_at
parse_top_level fuel p = top_level_at fuel (current p) p

unfoldable pub source_loop : ℕ → M (Unit {0})
unfolding parse_top_level error_and_bump
source_loop zero = no_fuel
source_loop (suc fuel) =
    branch (λ p. not (at_eof p))
      (do
        prev ← ask (λ p. p.pos)
        parse_top_level fuel
        when (λ p. p.pos == prev) (error_and_bump "unexpected token" e0051)
        source_loop fuel)
      done

unfoldable pub parse_source_file : ℕ → M (Unit {0})
unfolding source_loop eat_trivia
parse_source_file fuel = do start_node source_file; source_loop fuel; eat_trivia; finish_node

-- The depth of calls that is enough for a number of tokens.
abbrev pub enough_fuel : List Token → ℕ
enough_fuel tokens = 8 * length tokens + 8

-- `parse` on the pieces of the tokenizer: the calls of the tree builder, in reverse, and the
-- diagnostics of the lexer with those of the parser behind them.
unfoldable pub parse : ℕ → List Piece → ℕ → Outcome (List Diagnostic)
unfolding parse_source_file lex
parse file_id pieces source_len =
    let (tokens, diagnostics) = lex file_id pieces source_len in
    (do parse_source_file (enough_fuel tokens); ask (λ p. diagnostics ++ p.diagnostics))
      (new_parser tokens file_id (source_len % u32_mod))

abbrev pub is_error : Diagnostic → Bool
is_error d = elim d.severity [ Severity.error ↦ true | _ ↦ false ]

unfoldable pub has_errors : List Diagnostic → Bool
has_errors diagnostics = any is_error diagnostics
