-- ===== src/Parser/Core.antt =====
-- The steps of `Parser` in asatsuyu/crates/asatsuyu-parser/src/parser.rs: consuming tokens, opening
-- and closing nodes, and recovery from errors.
use Prim.Native.String
use asatsuyu.Base.{
  ℕ, zero, suc, ◌+◌, Bool, true, false, not, ◌&&◌, ◌||◌, List, [], ◌∷◌, ◌++◌, String, length,
}
use asatsuyu.Syntax.Kind.{SyntaxKind, is_trivia, same_kind, eof, node_error}
use asatsuyu.Syntax.Diagnostic.{Diagnostic, DiagnosticCode, error_at, with_code, with_label}
use asatsuyu.Lexer.{Token}
use asatsuyu.Parser.Debug.{debug_name}
use asatsuyu.Parser.TokenSet.{TokenSet, contains, union, top_level_recovery, closing_delimiters}
use asatsuyu.Parser.State.{token, start, start_at, finish, Parser, at, at_any, at_eof, current_span}
use asatsuyu.Parser.Monad.{M, panic, ok, ◌>>◌, done, no_fuel, branch}

-- `Parser::new` on tokens whose last one ends at `last_end`.
abbrev pub new_parser : List Token → ℕ → ℕ → Parser
new_parser tokens file_id last_end = record {
  rest = tokens;
  pos = 0;
  events = [];
  diagnostics = [];
  file_id = file_id;
  last_end = last_end;
}

-- Hand the first token of the rest to the builder.
abbrev pub take_token : Token → List Token → Parser → Parser
take_token t ts p = record p { rest = ts; pos = p.pos + 1; events = token t ∷ p.events }

-- The loop of `eat_trivia` over the tokens of the rest.
unfoldable pub eat_loop : List Token → Parser → Parser
eat_loop [] p = p
eat_loop (t ∷ ts) p = elim (is_trivia t.kind) [ true ↦ eat_loop ts (take_token t ts p) | false ↦ p ]

unfoldable pub eat_trivia : M (Unit {0})
unfolding eat_loop
eat_trivia p = ok tt (eat_loop p.rest p)

-- What `bump` does after the trivia: the assertion fails at the end of the input.
abbrev pub bump_token : M (Unit {0})
bump_token p = elim p.rest [
  | [] ↦ panic
  | t ∷ ts ↦ elim (same_kind t.kind eof) [ true ↦ panic | false ↦ ok tt (take_token t ts p) ]
]

unfoldable pub bump : M (Unit {0})
unfolding eat_trivia
bump = do eat_trivia; bump_token

abbrev pub report : Diagnostic → M (Unit {0})
report d p = ok tt (record p { diagnostics = p.diagnostics ++ d ∷ [] })

-- `Diagnostic::error(message, span).with_code(code).with_label(span, label)` at the current span
abbrev pub error_here : String → DiagnosticCode → String → M (Unit {0})
error_here message code label p =
    report (with_label (current_span p) label (with_code code (error_at message (current_span p))))
      p

abbrev pub expected_message : SyntaxKind → String
expected_message kind = String.◌++◌ "expected " (debug_name kind)

unfoldable pub expect : SyntaxKind → M Bool
unfolding bump debug_name
expect kind =
    branch (at kind) (do bump; λ p. ok true p)
      (do
        error_here (expected_message kind) DiagnosticCode.e0050 (expected_message kind)
        λ p. ok false p)

abbrev pub start_node : SyntaxKind → M (Unit {0})
start_node kind p = ok tt (record p { events = start kind ∷ p.events })

abbrev pub finish_node : M (Unit {0})
finish_node p = ok tt (record p { events = finish ∷ p.events })

abbrev pub checkpoint : M ℕ
checkpoint p = ok (length p.events) p

abbrev pub start_node_at : ℕ → SyntaxKind → M (Unit {0})
start_node_at c kind p = ok tt (record p { events = start_at c kind ∷ p.events })

unfoldable pub error_and_bump : String → DiagnosticCode → M (Unit {0})
unfolding bump
error_and_bump message code = do
  error_here message code message
  start_node node_error
  bump
  finish_node

-- `while !at_eof() && !at_any(stop) { bump() }`, with fuel.
unfoldable pub skip_until : ℕ → TokenSet → M (Unit {0})
unfolding bump contains
skip_until zero stop = no_fuel
skip_until (suc fuel) stop =
    branch (λ p. not (at_eof p) && not (at_any stop p)) (do bump; skip_until fuel stop) done

-- Each round consumes a token, so a round for each token and one for the test are enough.
abbrev pub skip_to : TokenSet → M (Unit {0})
skip_to stop p = skip_until (length p.rest + 1) stop p

unfoldable pub error_recover : String → DiagnosticCode → M (Unit {0})
unfolding skip_until eat_trivia top_level_recovery
error_recover message code = do
  error_here message code message
  start_node node_error
  skip_to top_level_recovery
  eat_trivia
  finish_node

abbrev pub stop_set : TokenSet → TokenSet
stop_set recovery = union (union recovery closing_delimiters) top_level_recovery

unfoldable pub error_recover_until : String → TokenSet → DiagnosticCode → M (Unit {0})
unfolding skip_until eat_trivia top_level_recovery closing_delimiters union contains
error_recover_until message recovery code = do
  error_here message code message
  branch (λ p. at_eof p || at_any (stop_set recovery) p) done
      (do start_node node_error; skip_to (stop_set recovery); eat_trivia; finish_node)

-- `p.expect(kind);` with its result dropped.
unfoldable pub must : SyntaxKind → M (Unit {0})
unfolding expect
must kind = do expect kind; done
