-- ===== src/Lexer.antt =====
-- asatsuyu/crates/asatsuyu-lexer/src/lib.rs: the tokens of a source text. The generated tokenizer
-- is a parameter: it gives the pieces of the source in order, each with the token it stands for or
-- with none where no rule fits.
pub mod Partition
use asatsuyu.Base.{ℕ, ◌+◌, ◌%◌, Option, none, some, List, [], ◌∷◌, ◌++◌, String}
use asatsuyu.Syntax.Kind.{SyntaxKind}
use asatsuyu.Syntax.Keyword.{kind_of_text}
use asatsuyu.Syntax.Span.{Span, new_span, u32_mod}
use asatsuyu.Syntax.Diagnostic.{
  Diagnostic, DiagnosticCode, error_at, with_code, with_label, with_hint,
}

pub data LexToken : Type 0 where
  int_lit float_lit string_lit ident plus minus star slash percent eq eq_eq bang_eq lt lt_eq gt
        gt_eq bang ampersand pipe_single amp_amp pipe_pipe pipe string_concat l_paren r_paren
        l_brace r_brace l_bracket r_bracket comma colon semicolon dot dot_dot arrow underscore
        whitespace newline comment :
      LexToken

-- `From<LexToken> for SyntaxKind`
abbrev pub kind_of : LexToken → SyntaxKind
kind_of LexToken.int_lit = SyntaxKind.int_lit
kind_of LexToken.float_lit = SyntaxKind.float_lit
kind_of LexToken.string_lit = SyntaxKind.string_lit
kind_of LexToken.ident = SyntaxKind.ident
kind_of LexToken.plus = SyntaxKind.plus
kind_of LexToken.minus = SyntaxKind.minus
kind_of LexToken.star = SyntaxKind.star
kind_of LexToken.slash = SyntaxKind.slash
kind_of LexToken.percent = SyntaxKind.percent
kind_of LexToken.eq = SyntaxKind.eq
kind_of LexToken.eq_eq = SyntaxKind.eq_eq
kind_of LexToken.bang_eq = SyntaxKind.bang_eq
kind_of LexToken.lt = SyntaxKind.lt
kind_of LexToken.lt_eq = SyntaxKind.lt_eq
kind_of LexToken.gt = SyntaxKind.gt
kind_of LexToken.gt_eq = SyntaxKind.gt_eq
kind_of LexToken.bang = SyntaxKind.bang
kind_of LexToken.ampersand = SyntaxKind.ampersand
kind_of LexToken.pipe_single = SyntaxKind.pipe_single
kind_of LexToken.amp_amp = SyntaxKind.amp_amp
kind_of LexToken.pipe_pipe = SyntaxKind.pipe_pipe
kind_of LexToken.pipe = SyntaxKind.pipe
kind_of LexToken.string_concat = SyntaxKind.string_concat
kind_of LexToken.l_paren = SyntaxKind.l_paren
kind_of LexToken.r_paren = SyntaxKind.r_paren
kind_of LexToken.l_brace = SyntaxKind.l_brace
kind_of LexToken.r_brace = SyntaxKind.r_brace
kind_of LexToken.l_bracket = SyntaxKind.l_bracket
kind_of LexToken.r_bracket = SyntaxKind.r_bracket
kind_of LexToken.comma = SyntaxKind.comma
kind_of LexToken.colon = SyntaxKind.colon
kind_of LexToken.semicolon = SyntaxKind.semicolon
kind_of LexToken.dot = SyntaxKind.dot
kind_of LexToken.dot_dot = SyntaxKind.dot_dot
kind_of LexToken.arrow = SyntaxKind.arrow
kind_of LexToken.underscore = SyntaxKind.underscore
kind_of LexToken.whitespace = SyntaxKind.whitespace
kind_of LexToken.newline = SyntaxKind.newline
kind_of LexToken.comment = SyntaxKind.comment

pub record Token : Type 0 where
  pub kind : SyntaxKind
  pub span : Span
  pub text : String

-- One result of the tokenizer: `Ok(token)` or `Err`, with `lexer.span()` and `lexer.slice()`.
pub record Piece : Type 0 where
  pub token : Option LexToken
  pub start : ℕ
  pub end : ℕ
  pub slice : String

abbrev pub span_of : ℕ → Piece → Span
span_of file_id piece = new_span file_id (piece.start % u32_mod) (piece.end % u32_mod)

-- An identifier that is a keyword's text gets the keyword's kind.
abbrev pub kind_of_ident : String → SyntaxKind
kind_of_ident text = elim (kind_of_text text) [ some kind ↦ kind | none ↦ SyntaxKind.ident ]

unfoldable pub kind_of_piece : Piece → SyntaxKind
kind_of_piece piece = elim piece.token [
  | none ↦ SyntaxKind.error
  | some LexToken.ident ↦ kind_of_ident piece.slice
  | some other ↦ kind_of other
]

abbrev pub token_of : ℕ → Piece → Token
token_of file_id piece = record {
  kind = kind_of_piece piece;
  span = span_of file_id piece;
  text = piece.slice;
}

abbrev pub unexpected_character : Span → Diagnostic
unexpected_character span =
    with_hint "check for misplaced special characters or unsupported Unicode" (
      with_label span "invalid token"
        (with_code DiagnosticCode.e0001 (error_at "unexpected character" span)))

abbrev pub eof_token : ℕ → ℕ → Token
eof_token file_id source_len = record {
  kind = SyntaxKind.eof;
  span = new_span file_id (source_len % u32_mod) (source_len % u32_mod);
  text = "";
}

-- The loop over the pieces.
unfoldable pub lex_pieces : ℕ → List Piece → List Token × List Diagnostic
unfolding kind_of_piece
lex_pieces file_id [] = ([], [])
lex_pieces file_id (piece ∷ pieces) =
    let (tokens, diagnostics) = lex_pieces file_id pieces in
    (
      token_of file_id piece ∷ tokens,
      elim piece.token [
        | some _ ↦ diagnostics
        | none ↦ unexpected_character (span_of file_id piece) ∷ diagnostics
      ],
    )

-- The pieces of a source and its length, and the tokens with the end token behind them.
unfoldable pub lex : ℕ → List Piece → ℕ → List Token × List Diagnostic
unfolding lex_pieces
lex file_id pieces source_len =
    let (tokens, diagnostics) = lex_pieces file_id pieces in
    (tokens ++ eof_token file_id source_len ∷ [], diagnostics)
