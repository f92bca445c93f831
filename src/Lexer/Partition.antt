-- ===== src/Lexer/Partition.antt =====
-- The tokens of asatsuyu/crates/asatsuyu-lexer/src/lib.rs against the pieces of the source.
use asatsuyu.Base.{
  Option, ℕ, ◌%◌, ◌<◌, ◌≤◌, ◌≡◌, refl, ap, none, some, List, [], ◌∷◌, ◌++◌, map, String, arith,
  Bool, true, false, not, Option-cases, inl, inr, Bool-cases, all,
}
use asatsuyu.Syntax.Kind.{SyntaxKind, eof, error, same_kind}
use asatsuyu.Syntax.Keyword.{kind_of_text, text_of}
use asatsuyu.Syntax.Kind.Laws.{same_kind-eq}
use asatsuyu.Syntax.Keyword.Laws.{kind_of_text_iff, text_of-none}
use asatsuyu.Syntax.Span.{Span, u32_mod}
use asatsuyu.Syntax.Diagnostic.{Diagnostic, Severity, DiagnosticCode, e0001}
use asatsuyu.Lexer.{
  LexToken, kind_of, Token, span_of, Piece, kind_of_ident, lex_pieces, lex, eof_token,
  kind_of_piece,
}

-- Neither the end token nor the token of an error.
abbrev Lexed : SyntaxKind → Type 0
Lexed k = (same_kind k eof ≡ false) × (same_kind k error ≡ false)

kind_of-Lexed : (t : LexToken) → Lexed (kind_of t)
kind_of-Lexed LexToken.int_lit = (refl, refl)
kind_of-Lexed LexToken.float_lit = (refl, refl)
kind_of-Lexed LexToken.string_lit = (refl, refl)
kind_of-Lexed LexToken.ident = (refl, refl)
kind_of-Lexed LexToken.plus = (refl, refl)
kind_of-Lexed LexToken.minus = (refl, refl)
kind_of-Lexed LexToken.star = (refl, refl)
kind_of-Lexed LexToken.slash = (refl, refl)
kind_of-Lexed LexToken.percent = (refl, refl)
kind_of-Lexed LexToken.eq = (refl, refl)
kind_of-Lexed LexToken.eq_eq = (refl, refl)
kind_of-Lexed LexToken.bang_eq = (refl, refl)
kind_of-Lexed LexToken.lt = (refl, refl)
kind_of-Lexed LexToken.lt_eq = (refl, refl)
kind_of-Lexed LexToken.gt = (refl, refl)
kind_of-Lexed LexToken.gt_eq = (refl, refl)
kind_of-Lexed LexToken.bang = (refl, refl)
kind_of-Lexed LexToken.ampersand = (refl, refl)
kind_of-Lexed LexToken.pipe_single = (refl, refl)
kind_of-Lexed LexToken.amp_amp = (refl, refl)
kind_of-Lexed LexToken.pipe_pipe = (refl, refl)
kind_of-Lexed LexToken.pipe = (refl, refl)
kind_of-Lexed LexToken.string_concat = (refl, refl)
kind_of-Lexed LexToken.l_paren = (refl, refl)
kind_of-Lexed LexToken.r_paren = (refl, refl)
kind_of-Lexed LexToken.l_brace = (refl, refl)
kind_of-Lexed LexToken.r_brace = (refl, refl)
kind_of-Lexed LexToken.l_bracket = (refl, refl)
kind_of-Lexed LexToken.r_bracket = (refl, refl)
kind_of-Lexed LexToken.comma = (refl, refl)
kind_of-Lexed LexToken.colon = (refl, refl)
kind_of-Lexed LexToken.semicolon = (refl, refl)
kind_of-Lexed LexToken.dot = (refl, refl)
kind_of-Lexed LexToken.dot_dot = (refl, refl)
kind_of-Lexed LexToken.arrow = (refl, refl)
kind_of-Lexed LexToken.underscore = (refl, refl)
kind_of-Lexed LexToken.whitespace = (refl, refl)
kind_of-Lexed LexToken.newline = (refl, refl)
kind_of-Lexed LexToken.comment = (refl, refl)

not_keyword :
    (text : String) (k j : SyntaxKind)
    → kind_of_text text ≡ some k
    → text_of j ≡ none
    → same_kind k j ≡ false
not_keyword text k j h n = elim (Bool-cases (same_kind k j)) [
  | inr e ↦ e
  | inl e ↦ let named = (kind_of_text_iff text k).0 h in absurd (cc (named, n, same_kind-eq k j e))
]

kind_of_ident-Lexed : (text : String) → Lexed (kind_of_ident text)
kind_of_ident-Lexed text = elim (Option-cases (kind_of_text text)) [
  | inl e ↦ rw (e, kind_of_ident) (refl, refl)
  | inr (k, e) ↦
      rw (e, kind_of_ident)
        (not_keyword text k eof e text_of-none.0, not_keyword text k error e text_of-none.1)
]

-- A piece is never the end, and an error only where no rule fits.
kind_of_piece-Lexed :
    (piece : Piece) (t : LexToken) → piece.token ≡ some t → Lexed (kind_of_piece piece)
unfolding kind_of_piece
kind_of_piece-Lexed piece LexToken.ident e = rw e (kind_of_ident-Lexed piece.slice)
kind_of_piece-Lexed piece t e = rw e (kind_of-Lexed t)

kind_of_piece-error : (piece : Piece) → piece.token ≡ none → kind_of_piece piece ≡ error
unfolding kind_of_piece
kind_of_piece-error piece e = rw e refl

-- The pieces cover the source from one offset to another without a gap.
abbrev pub Covers : List Piece → ℕ → ℕ → Type 0
Covers [] from to = from ≡ to
Covers (piece ∷ pieces) from to =
    (piece.start ≡ from) × (from ≤ piece.end) × (piece.end ≤ to) × Covers pieces piece.end to

-- So do the spans of the tokens.
abbrev pub Tiles : List Token → ℕ → ℕ → Type 0
Tiles [] from to = from ≡ to
Tiles (t ∷ ts) from to =
    (t.span.start ≡ from) × (from ≤ t.span.end) × (t.span.end ≤ to) × Tiles ts t.span.end to

lex_pieces-Tiles :
    (file_id : ℕ) (pieces : List Piece) (from to : ℕ)
    → Covers pieces from to
    → to < u32_mod
    → from ≤ to
    → Tiles ((lex_pieces file_id pieces).0 ++ eof_token file_id to ∷ []) from to
unfolding lex_pieces
lex_pieces-Tiles file_id [] from to c h l = (omega arith, omega arith, omega arith, omega arith)
lex_pieces-Tiles file_id (piece ∷ pieces) from to (s, e, b, c) h l =
    let small : piece.end % u32_mod ≡ piece.end = omega arith in
    (
      omega arith,
      omega arith,
      omega arith,
      rw small (lex_pieces-Tiles file_id pieces piece.end to c h b),
    )

-- Where the pieces cover a source of less than 2^32 bytes without a gap, so do the spans of the
-- tokens, the end token behind them.
pub lex-Tiles :
    (file_id : ℕ) (pieces : List Piece) (source_len : ℕ)
    → Covers pieces 0 source_len
    → source_len < u32_mod
    → Tiles (lex file_id pieces source_len).0 0 source_len
unfolding lex
lex-Tiles file_id pieces source_len c h =
    lex_pieces-Tiles file_id pieces 0 source_len c h (omega arith)

-- Severity, code and place of a diagnostic.
abbrev pub shown : Diagnostic → Severity × Option DiagnosticCode × Span
shown d = (d.severity, d.code, d.span)

-- An error E0001 at the span of each error token, in the order of the tokens.
abbrev pub error_places : List Token → List (Severity × Option DiagnosticCode × Span)
error_places [] = []
error_places (t ∷ ts) = elim (same_kind t.kind error) [
  | true ↦ (Severity.error, some e0001, t.span) ∷ error_places ts
  | false ↦ error_places ts
]

lex_pieces-errors :
    (file_id : ℕ) (pieces : List Piece) (n : ℕ)
    → map shown (lex_pieces file_id pieces).1
      ≡ error_places ((lex_pieces file_id pieces).0 ++ eof_token file_id n ∷ [])
unfolding lex_pieces
lex_pieces-errors file_id [] n = refl
lex_pieces-errors file_id (piece ∷ pieces) n = elim (Option-cases piece.token) [
  | inl e ↦
      rw (kind_of_piece-error piece e, e, error_places)
        (ap (λ ds. (Severity.error, some e0001, span_of file_id piece) ∷ ds)
          (lex_pieces-errors file_id pieces n))
  | inr (t, e) ↦
      rw ((kind_of_piece-Lexed piece t e).1, e, error_places) (lex_pieces-errors file_id pieces n)
]

-- The diagnostics of the lexer are, in the order of the tokens, an error E0001 at the span of
-- each error token, and no other.
pub lex-errors :
    (file_id : ℕ) (pieces : List Piece) (source_len : ℕ)
    → map shown (lex file_id pieces source_len).1 ≡ error_places (lex file_id pieces source_len).0
unfolding lex
lex-errors file_id pieces source_len = lex_pieces-errors file_id pieces source_len

abbrev pub not_end : Token → Bool
not_end t = not (same_kind t.kind eof)

-- No token but the last one is an end token.
pub lex_pieces-not_end :
    (file_id : ℕ) (pieces : List Piece) → all not_end (lex_pieces file_id pieces).0 ≡ true
unfolding lex_pieces
lex_pieces-not_end file_id [] = refl
lex_pieces-not_end file_id (piece ∷ pieces) = elim (Option-cases piece.token) [
  | inl e ↦ rw (kind_of_piece-error piece e) (lex_pieces-not_end file_id pieces)
  | inr (t, e) ↦ rw (kind_of_piece-Lexed piece t e).0 (lex_pieces-not_end file_id pieces)
]

pub lex_pieces-text :
    (file_id : ℕ) (pieces : List Piece)
    → map (λ (t : Token). t.text) (lex_pieces file_id pieces).0
      ≡ map (λ (p : Piece). p.slice) pieces
unfolding lex_pieces
lex_pieces-text file_id [] = refl
lex_pieces-text file_id (piece ∷ pieces) =
    ap (λ ts. piece.slice ∷ ts) (lex_pieces-text file_id pieces)
