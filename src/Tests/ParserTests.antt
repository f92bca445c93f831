-- ===== src/Tests/ParserTests.antt =====
-- The lexer and the parser on a function, on the same function without its closing brace, and on
-- the empty end of an input.
use asatsuyu.Base.{
  none, ◌++◌, any, ◌||◌, ℕ, ◌≡◌, ◌≢◌, ◌↔◌, refl, true, false, some, List, [], find, ◌∷◌, map,
  String, arith,
}
use asatsuyu.Syntax.Kind.{r_brace, comma, l_paren, eof}
use asatsuyu.Syntax.Keyword.{kind_of_text}
use asatsuyu.Lexer.{LexToken, Token, Piece}
use asatsuyu.Lexer.Partition.{Tiles, lex-Tiles, lex-errors, shown, error_places}
use asatsuyu.Parser.TokenSet.Laws.{contains-new_set}
use asatsuyu.Parser.State.{Parser, at_eof}
use asatsuyu.Parser.Monad.{Outcome, out_of_fuel, panic, ok}
use asatsuyu.Parser.Core.{new_parser}
use asatsuyu.Lexer.{kind_of_piece, lex_pieces, lex}
use asatsuyu.Parser.Debug.{debug_name}
use asatsuyu.Parser.TokenSet.{
  insert_all, new_set, union, test_bit, contains, top_level_recovery, closing_delimiters,
  expr_start, pattern_start,
}
use asatsuyu.Parser.Core.{
  eat_loop, eat_trivia, bump, expect, error_and_bump, skip_until, error_recover,
  error_recover_until, must,
}
use asatsuyu.Parser.Grammar.{
  more_items, paren_items, delimited, parse_type_expr, param_type, parse_param,
  parse_param_list_with_mode, parse_param_list, parse_lambda_param_list, parse_return_type,
}
use asatsuyu.Parser.Grammar.Patterns.{
  leaf, parse_wildcard_pat, parse_literal_pat, parse_ident_pat, parse_pattern, pattern_at,
  parse_constructor_pat, parse_list_pat,
}
use asatsuyu.Parser.Grammar.Exprs.{
  parse_literal_expr, parse_ident_expr, parse_expr_bp, parse_expr, expr_atom, parse_prefix,
  expr_loop, postfix, parse_arg_list, parse_list_expr, parse_if_expr, parse_block_expr, block_loop,
  parse_let_stmt, parse_assign_stmt, parse_lambda_expr, parse_guard, parse_match_arm,
  parse_match_expr, match_loop,
}
use asatsuyu.Parser.Grammar.Items.{
  parse_visibility, parse_type_param, parse_type_param_list, parse_record_field,
  parse_variant_field, parse_variant, body_loop, parse_type_body, parse_type_def, import_alias,
  import_path, parse_import, parse_from_python_import,
}
use asatsuyu.Parser.Grammar.TopLevel.{
  parse, has_errors, modifiers, parse_fn_def, top_level_at, parse_top_level, source_loop,
  parse_source_file,
}
use asatsuyu.Parser.Trace.{tokens_from, end_kind, Nest}
use asatsuyu.Parser.SourceFile.{
  run, parse_source_file-terminates, parse_source_file-returns, parse_source_file-Nest,
  parse_source_file-lossless,
}
use asatsuyu.Parser.Errors.{is_invalid, parse-has_errors}
use asatsuyu.Parser.EndOfInput.{bump_panic_iff, parse_expr_bp-panic}

abbrev piece : LexToken → ℕ → ℕ → String → Piece
piece t i j s = record { token = some t; start = i; end = j; slice = s }

-- `fn f() {x`
abbrev opening : List Piece
opening =
    piece LexToken.ident 0 2 "fn"
    ∷ piece LexToken.whitespace 2 3 " "
    ∷ piece LexToken.ident 3 4 "f"
    ∷ piece LexToken.l_paren 4 5 "("
    ∷ piece LexToken.r_paren 5 6 ")"
    ∷ piece LexToken.whitespace 6 7 " "
    ∷ piece LexToken.l_brace 7 8 "{"
    ∷ piece LexToken.ident 8 9 "x"
    ∷ []

-- `fn f() {x}`
abbrev function : List Piece
function =
    piece LexToken.ident 0 2 "fn"
    ∷ piece LexToken.whitespace 2 3 " "
    ∷ piece LexToken.ident 3 4 "f"
    ∷ piece LexToken.l_paren 4 5 "("
    ∷ piece LexToken.r_paren 5 6 ")"
    ∷ piece LexToken.whitespace 6 7 " "
    ∷ piece LexToken.l_brace 7 8 "{"
    ∷ piece LexToken.ident 8 9 "x"
    ∷ piece LexToken.r_brace 9 10 "}"
    ∷ []

-- Its tokens.
abbrev tokens : List Token
tokens = (lex 0 function 10).0

ends_with_brace : end_kind eof tokens ≡ r_brace
unfolding kind_of_text find lex lex_pieces kind_of_piece
ends_with_brace = refl

abbrev parsed : Parser
parsed = (parse_source_file-returns tokens 0 10 ends_with_brace).0

parsed_is_result : run (lex 0 function 10).0 0 10 ≡ ok tt parsed
parsed_is_result = (parse_source_file-returns tokens 0 10 ends_with_brace).1

parse_source_file-terminates_example : run tokens 0 10 ≢ out_of_fuel
parse_source_file-terminates_example = parse_source_file-terminates tokens 0 10

parse_source_file-returns_example : (q : Parser) × (run tokens 0 10 ≡ ok tt q)
parse_source_file-returns_example = parse_source_file-returns tokens 0 10 ends_with_brace

parse_source_file-Nest_example : Nest [] parsed.events 0
parse_source_file-Nest_example = parse_source_file-Nest tokens 0 10 parsed parsed_is_result

parse_source_file-lossless_example :
    (tokens_from parsed.events [] ≡ (lex_pieces 0 function).0)
    × (map (λ (t : Token). t.text) (tokens_from parsed.events [])
        ≡ map (λ (p : Piece). p.slice) function)
parse_source_file-lossless_example =
    parse_source_file-lossless 0 10 10 function parsed parsed_is_result

parse-has_errors_example :
    (q : Parser) × (parse 0 function 10 ≡ ok ((lex 0 function 10).1 ++ q.diagnostics) q)
    × (has_errors ((lex 0 function 10).1 ++ q.diagnostics)
        ≡ (any is_invalid function || has_errors q.diagnostics))
parse-has_errors_example = parse-has_errors 0 function 10 ends_with_brace

abbrev at_the_end : Parser
at_the_end = new_parser [] 0 0

bump_panic_iff_example : (bump at_the_end ≡ panic) ↔ (at_eof at_the_end ≡ true)
bump_panic_iff_example = bump_panic_iff at_the_end

parse_expr_bp-panic_example : parse_expr_bp 2 0 at_the_end ≡ panic
parse_expr_bp-panic_example = parse_expr_bp-panic 0 0 at_the_end refl

lex-Tiles_example : Tiles (lex 0 function 10).0 0 10
lex-Tiles_example =
    lex-Tiles 0 function 10
      (
        refl,
        omega arith,
        omega arith,
        (
          refl,
          omega arith,
          omega arith,
          (
            refl,
            omega arith,
            omega arith,
            (
              refl,
              omega arith,
              omega arith,
              (
                refl,
                omega arith,
                omega arith,
                (
                  refl,
                  omega arith,
                  omega arith,
                  (
                    refl,
                    omega arith,
                    omega arith,
                    (refl, omega arith, omega arith, (refl, omega arith, omega arith, refl)),
                  ),
                ),
              ),
            ),
          ),
        ),
      )
      (omega arith)

-- `a$`, where no rule fits the second byte.
abbrev misplaced : List Piece
misplaced =
    piece LexToken.ident 0 1 "a" ∷ record { token = none; start = 1; end = 2; slice = "$" } ∷ []

lex-errors_example : map shown (lex 0 misplaced 2).1 ≡ error_places (lex 0 misplaced 2).0
lex-errors_example = lex-errors 0 misplaced 2

contains-new_set_example : contains (new_set (comma ∷ l_paren ∷ [])) r_brace ≡ false
contains-new_set_example = contains-new_set (comma ∷ l_paren ∷ []) r_brace

-- `fn f() {x +`: an expression is expected at the end of the input.
abbrev unfinished : List Piece
unfinished =
    piece LexToken.ident 0 2 "fn"
    ∷ piece LexToken.ident 3 4 "f"
    ∷ piece LexToken.l_paren 4 5 "("
    ∷ piece LexToken.r_paren 5 6 ")"
    ∷ piece LexToken.l_brace 7 8 "{"
    ∷ piece LexToken.ident 8 9 "x"
    ∷ piece LexToken.plus 9 10 "+"
    ∷ []

fails : run (lex 0 unfinished 10).0 0 10 ≡ panic
unfolding kind_of_text find kind_of_piece lex_pieces lex debug_name insert_all new_set union
    test_bit contains top_level_recovery closing_delimiters expr_start pattern_start eat_loop
    eat_trivia bump expect error_and_bump skip_until error_recover error_recover_until must
    more_items paren_items delimited parse_type_expr param_type parse_param
    parse_param_list_with_mode parse_param_list parse_lambda_param_list parse_return_type leaf
    parse_wildcard_pat parse_literal_pat parse_ident_pat parse_pattern pattern_at
    parse_constructor_pat parse_list_pat parse_literal_expr parse_ident_expr parse_expr_bp
    parse_expr expr_atom parse_prefix expr_loop postfix parse_arg_list parse_list_expr parse_if_expr
    parse_block_expr block_loop parse_let_stmt parse_assign_stmt parse_lambda_expr parse_guard
    parse_match_arm parse_match_expr match_loop parse_visibility parse_type_param
    parse_type_param_list parse_record_field parse_variant_field parse_variant body_loop
    parse_type_body parse_type_def import_alias import_path parse_import parse_from_python_import
    modifiers parse_fn_def top_level_at parse_top_level source_loop parse_source_file
fails = refl

-- What parsing hands on of `fn f() {x}`, read back.
abbrev handed : Outcome (Unit {0}) → List String
handed r = elim r [
  | out_of_fuel ↦ []
  | panic ↦ []
  | ok _ q ↦ map (λ (t : Token). t.text) (tokens_from q.events [])
]

handed_function :
    handed (run tokens 0 10) ≡ "fn" ∷ " " ∷ "f" ∷ "(" ∷ ")" ∷ " " ∷ "{" ∷ "x" ∷ "}" ∷ []
unfolding kind_of_text find kind_of_piece lex_pieces lex debug_name insert_all new_set union
    test_bit contains top_level_recovery closing_delimiters expr_start pattern_start eat_loop
    eat_trivia bump expect error_and_bump skip_until error_recover error_recover_until must
    more_items paren_items delimited parse_type_expr param_type parse_param
    parse_param_list_with_mode parse_param_list parse_lambda_param_list parse_return_type leaf
    parse_wildcard_pat parse_literal_pat parse_ident_pat parse_pattern pattern_at
    parse_constructor_pat parse_list_pat parse_literal_expr parse_ident_expr parse_expr_bp
    parse_expr expr_atom parse_prefix expr_loop postfix parse_arg_list parse_list_expr parse_if_expr
    parse_block_expr block_loop parse_let_stmt parse_assign_stmt parse_lambda_expr parse_guard
    parse_match_arm parse_match_expr match_loop parse_visibility parse_type_param
    parse_type_param_list parse_record_field parse_variant_field parse_variant body_loop
    parse_type_body parse_type_def import_alias import_path parse_import parse_from_python_import
    modifiers parse_fn_def top_level_at parse_top_level source_loop parse_source_file
handed_function = refl
