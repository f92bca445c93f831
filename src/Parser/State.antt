-- ===== src/Parser/State.antt =====
-- The state of `Parser` in asatsuyu/crates/asatsuyu-parser/src/parser.rs and the queries on it. The
-- slice of tokens is held as the part from `pos` on. The tree builder is third-party code: the
-- state keeps the calls that are made of it, the last one first.
use asatsuyu.Base.{ℕ, zero, suc, Bool, true, false, Option, none, some, List, [], ◌∷◌, String}
use asatsuyu.Syntax.Kind.{SyntaxKind, same_kind, is_trivia, eof}
use asatsuyu.Syntax.Span.{Span, new_span}
use asatsuyu.Syntax.Diagnostic.{Diagnostic}
use asatsuyu.Lexer.{Token}
use asatsuyu.Parser.TokenSet.{TokenSet, contains}

-- `builder.token`, `start_node`, `start_node_at` and `finish_node`. A checkpoint is held as the
-- number of calls before it was taken.
pub data Event : Type 0 where
  token : Token → Event
  start : SyntaxKind → Event
  start_at : ℕ → SyntaxKind → Event
  finish : Event

pub record Parser : Type 0 where
  pub rest : List Token
  pub pos : ℕ
  pub events : List Event
  pub diagnostics : List Diagnostic
  pub file_id : ℕ
  -- `tokens.last().span.end`
  pub last_end : ℕ

-- The loop of `nth` from the tokens on.
abbrev pub nth_kind : List Token → ℕ → SyntaxKind
nth_kind [] n = eof
nth_kind (t ∷ ts) n = elim (is_trivia t.kind) [
  | true ↦ nth_kind ts n
  | false ↦ elim n [ zero ↦ t.kind | suc remaining ↦ nth_kind ts remaining ]
]

abbrev pub nth : ℕ → Parser → SyntaxKind
nth n p = nth_kind p.rest n

abbrev pub current : Parser → SyntaxKind
current p = nth 0 p

abbrev pub at : SyntaxKind → Parser → Bool
at kind p = same_kind (current p) kind

abbrev pub at_any : TokenSet → Parser → Bool
at_any set p = contains set (current p)

abbrev pub at_eof : Parser → Bool
at_eof p = at eof p

-- The loop that skips trivia, and the token behind it.
abbrev pub first_token : List Token → Option Token
first_token [] = none
first_token (t ∷ ts) = elim (is_trivia t.kind) [ true ↦ first_token ts | false ↦ some t ]

abbrev pub current_text : Parser → String
current_text p = elim (first_token p.rest) [ some t ↦ t.text | none ↦ "" ]

abbrev pub current_span : Parser → Span
current_span p = elim (first_token p.rest) [
  | some t ↦ t.span
  | none ↦ new_span p.file_id p.last_end p.last_end
]
