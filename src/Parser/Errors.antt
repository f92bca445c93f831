-- ===== src/Parser/Errors.antt =====
-- The diagnostics of `parse` in asatsuyu/crates/asatsuyu-parser/src/lib.rs.
use asatsuyu.Base.{
  ℕ, ◌%◌, ◌≡◌, refl, ap, ◌∙◌, Bool, true, false, ◌||◌, none, some, List, [], ◌∷◌, ◌++◌, any,
  any-append, Option-cases, inl, inr,
}
use asatsuyu.Syntax.Kind.{eof, r_brace}
use asatsuyu.Syntax.Span.{u32_mod}
use asatsuyu.Syntax.Diagnostic.{Diagnostic}
use asatsuyu.Lexer.{Piece, lex, lex_pieces}
use asatsuyu.Parser.State.{Parser}
use asatsuyu.Parser.Monad.{Outcome, out_of_fuel, panic, ok}
use asatsuyu.Parser.Grammar.TopLevel.{parse, has_errors, is_error}
use asatsuyu.Parser.Trace.{end_kind}
use asatsuyu.Parser.SourceFile.{parse_source_file-returns}

-- A piece that no rule of the tokenizer fits.
abbrev pub is_invalid : Piece → Bool
is_invalid piece = elim piece.token [ none ↦ true | some _ ↦ false ]

lex_pieces-errors :
    (file_id : ℕ) (pieces : List Piece)
    → any is_error (lex_pieces file_id pieces).1 ≡ any is_invalid pieces
unfolding lex_pieces
lex_pieces-errors file_id [] = refl
lex_pieces-errors file_id (piece ∷ pieces) = elim (Option-cases piece.token) [
  | inl e ↦ rw (e, is_invalid) refl
  | inr (t, e) ↦ rw (e, is_invalid) (lex_pieces-errors file_id pieces)
]

-- What `parse` makes of the end of a run.
abbrev answered : List Diagnostic → Outcome (Unit {0}) → Outcome (List Diagnostic)
answered diagnostics r = elim r [
  | out_of_fuel ↦ out_of_fuel
  | panic ↦ panic
  | ok _ p ↦ ok (diagnostics ++ p.diagnostics) p
]

-- If the last token that is neither trivia nor an end token is a closing brace, `parse` returns the
-- diagnostics of the lexer with those of the parser behind them, and it has errors exactly if no
-- rule of the tokenizer fits some piece of the source or the parser's diagnostics have errors.
pub parse-has_errors :
    (file_id : ℕ) (pieces : List Piece) (source_len : ℕ)
    → end_kind eof (lex file_id pieces source_len).0 ≡ r_brace
    → (q : Parser) × (parse file_id pieces source_len
        ≡ ok ((lex file_id pieces source_len).1 ++ q.diagnostics) q)
      × (has_errors ((lex file_id pieces source_len).1 ++ q.diagnostics)
          ≡ (any is_invalid pieces || has_errors q.diagnostics))
unfolding parse has_errors lex
parse-has_errors file_id pieces source_len h =
    let (q, e) =
      parse_source_file-returns (lex file_id pieces source_len).0 file_id (source_len % u32_mod)
        h in
    (
      q,
      ap (answered (lex file_id pieces source_len).1) e,
      any-append is_error (lex_pieces file_id pieces).1 q.diagnostics
          ∙ ap (λ b. b || any is_error q.diagnostics) (lex_pieces-errors file_id pieces),
    )
