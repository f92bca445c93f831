-- ===== src/Lsp.antt =====
-- asatsuyu/crates/asatsuyu-cli/src/lsp: semantic_tokens.rs, from the raw tokens on, and convert.rs.
-- The walk that collects raw tokens is not modelled: `sort_and_encode` takes its list.
pub mod Sorting
pub mod Positions
use Prim.Native.String
use asatsuyu.Base.{
  ℕ, ◌+◌, ◌-◌, ◌%◌, Bool, true, false, Option, none, some, List, [], ◌∷◌, map, leb, ltb, ◌==◌,
  if◌then◌else◌, String,
}
use asatsuyu.Syntax.Span.{u32_mod, Span, LineCol, LineIndex, line_col}
use asatsuyu.Syntax.Diagnostic.{Diagnostic, DiagnosticCode, Severity, Label}
use asatsuyu.Hir.{DefKind, DefData}
use asatsuyu.Ffi.{FfiTrustLevel}

-- The constants `TT_*` and `TM_*`.
abbrev pub tt_namespace : ℕ
tt_namespace = 0

abbrev pub tt_type : ℕ
tt_type = 1

abbrev pub tt_enum_member : ℕ
tt_enum_member = 2

abbrev pub tt_parameter : ℕ
tt_parameter = 4

abbrev pub tt_variable : ℕ
tt_variable = 5

abbrev pub tt_function : ℕ
tt_function = 7

abbrev pub tm_readonly : ℕ
tm_readonly = 2

abbrev pub tm_default_library : ℕ
tm_default_library = 16

abbrev pub tm_ffi : ℕ
tm_ffi = 32

abbrev pub tm_checked : ℕ
tm_checked = 64

abbrev pub tm_verified : ℕ
tm_verified = 128

pub record RawToken : Type 0 where
  pub start : ℕ
  pub length : ℕ
  pub token_type : ℕ
  pub modifiers : ℕ

pub record SemanticToken : Type 0 where
  pub delta_line : ℕ
  pub delta_start : ℕ
  pub length : ℕ
  pub token_type : ℕ
  pub token_modifiers_bitset : ℕ

abbrev pub trust_level_modifier : FfiTrustLevel → ℕ
trust_level_modifier FfiTrustLevel.verified = tm_verified
trust_level_modifier FfiTrustLevel.checked = tm_checked
trust_level_modifier FfiTrustLevel.unsafe = 0

-- `ffi_level` is the trust level of the FFI module of a name. The bits of `TM_FFI` and of a trust
-- level are distinct, so `|` is a sum.
unfoldable pub classify_def : (String → Option FfiTrustLevel) → DefData → ℕ × ℕ
classify_def ffi_level def = elim def.kind [
  | DefKind.function ↦ (tt_function, 0)
  | DefKind.parameter ↦ (tt_parameter, 0)
  | DefKind.local_binding ↦ (tt_variable, elim def.is_mutable [ true ↦ 0 | false ↦ tm_readonly ])
  | DefKind.constructor ↦ (tt_enum_member, 0)
  | DefKind.type_name ↦ (tt_type, 0)
  | DefKind.builtin ↦ (tt_function, tm_default_library)
  | DefKind.import ↦ (
    tt_namespace,
    elim (ffi_level def.name) [ some level ↦ tm_ffi + trust_level_modifier level | none ↦ 0 ],
  )
]

-- The list `out` with its latest token first.
abbrev pub push_raw : List RawToken → ℕ → ℕ → ℕ → ℕ → List RawToken
push_raw out start length token_type modifiers =
    if ltb 0 length
    then record { start = start; length = length; token_type = token_type; modifiers = modifiers }
      ∷ out
    else out

abbrev pub push_span_token : List RawToken → Span → ℕ → ℕ → List RawToken
push_span_token out span = push_raw out span.start (span.end - span.start)

abbrev pub push_def_token : List RawToken → DefData → ℕ → ℕ → List RawToken
push_def_token out def = push_span_token out def.span

-- `tokens.sort_by_key(|t| t.start)`, which is stable.
unfoldable pub insert_token : RawToken → List RawToken → List RawToken
insert_token t [] = t ∷ []
insert_token t (u ∷ us) = elim (leb t.start u.start) [
  | true ↦ t ∷ u ∷ us
  | false ↦ u ∷ insert_token t us
]

unfoldable pub sort_tokens : List RawToken → List RawToken
unfolding insert_token
sort_tokens [] = []
sort_tokens (t ∷ ts) = insert_token t (sort_tokens ts)

-- Subtraction on `u32`.
abbrev pub sub_u32 : ℕ → ℕ → ℕ
sub_u32 a b = (a + u32_mod - b) % u32_mod

-- The loop of `encode` after a token on line `prev_line` that starts at `prev_start`.
unfoldable pub encode_from : LineIndex → ℕ → ℕ → List RawToken → List SemanticToken
encode_from index prev_line prev_start [] = []
encode_from index prev_line prev_start (token ∷ raw) = elim (line_col index token.start) [
  | none ↦ encode_from index prev_line prev_start raw
  | some lc ↦
      let delta_line = sub_u32 (lc.line - 1) prev_line in
      record {
        delta_line = delta_line;
        delta_start = if delta_line == 0 then sub_u32 (lc.column - 1) prev_start else lc.column - 1;
        length = token.length;
        token_type = token.token_type;
        token_modifiers_bitset = token.modifiers;
      }
      ∷ encode_from index (lc.line - 1) (lc.column - 1) raw
]

abbrev pub encode : List RawToken → LineIndex → List SemanticToken
encode raw index = encode_from index 0 0 raw

-- `collect_and_encode` on the tokens that were collected
abbrev pub sort_and_encode : List RawToken → LineIndex → List SemanticToken
sort_and_encode tokens index = encode (sort_tokens tokens) index

-- `Position` and `Range` of the protocol
pub record Position : Type 0 where
  pub line : ℕ
  pub character : ℕ

pub record Range : Type 0 where
  pub start : Position
  pub end : Position

abbrev pub to_position : Option LineCol → Position
to_position (some lc) = record { line = lc.line - 1; character = lc.column - 1 }
to_position none = record { line = 0; character = 0 }

abbrev pub span_to_range : Span → LineIndex → Range
span_to_range span index = record {
  start = to_position (line_col index span.start);
  end = to_position (line_col index span.end);
}

pub data DiagnosticSeverity : Type 0 where
  error warning information : DiagnosticSeverity

pub record RelatedInformation : Type 0 where
  pub uri : String
  pub range : Range
  pub message : String

-- The code stands for its name, which is the text in the source.
pub record LspDiagnostic : Type 0 where
  pub range : Range
  pub severity : DiagnosticSeverity
  pub code : Option DiagnosticCode
  pub message : String
  pub related_information : Option (List RelatedInformation)

abbrev pub to_severity : Severity → DiagnosticSeverity
to_severity Severity.error = DiagnosticSeverity.error
to_severity Severity.warning = DiagnosticSeverity.warning
to_severity Severity.note = DiagnosticSeverity.information

abbrev pub push_lines : String → String → List String → String
push_lines message prefix [] = message
push_lines message prefix (text ∷ texts) =
    push_lines (String.◌++◌ message (String.◌++◌ prefix text)) prefix texts

abbrev pub related : LineIndex → String → List Label → Option (List RelatedInformation)
related index uri (_ ∷ label ∷ labels) = some (
    map
      (λ (l : Label). record { uri = uri; range = span_to_range l.span index; message = l.message })
      (label ∷ labels))
related index uri _ = none

abbrev pub to_lsp_diagnostic : Diagnostic → LineIndex → String → LspDiagnostic
to_lsp_diagnostic d index uri = record {
  range = span_to_range d.span index;
  severity = to_severity d.severity;
  code = d.code;
  message = push_lines (push_lines d.message "\nhint: " d.hints) "\nnote: " d.notes;
  related_information = related index uri d.labels;
}
