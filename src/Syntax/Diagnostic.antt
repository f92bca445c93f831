-- ===== src/Syntax/Diagnostic.antt =====
-- asatsuyu/crates/asatsuyu-syntax/src/diagnostic.rs: codes, their display, and diagnostics with
-- their builder.
pub mod Codes
use asatsuyu.Base.{ℕ, ◌+◌, ◌/◌, ◌%◌, Option, none, some, List, [], ◌∷◌, ◌++◌, String}
use asatsuyu.Syntax.Span.{Span}

pub data DiagnosticCode : Type 0 where
  e0001 e0050 e0051 e0052 e0053 e0054 e0055 e0056 e0057 e0058 e0059 e0060 e0061 e0062 e0063 e0100
        e0101 e0102 e0103 e0104 e0105 e0106 e0150 e0151 e0152 e0153 e0154 e0155 e0200 e0201 e0202
        e0203 e0204 e0205 e0206 e0207 e0208 e0209 e0210 e0211 e0212 e0213 e0214 e0215 e0216 e0217
        e0218 e0219 e0220 e0300 e0301 e0302 e0303 e0304 :
      DiagnosticCode

-- `self as u16`
abbrev pub number : DiagnosticCode → ℕ
number e0001 = 1
number e0050 = 50
number e0051 = 51
number e0052 = 52
number e0053 = 53
number e0054 = 54
number e0055 = 55
number e0056 = 56
number e0057 = 57
number e0058 = 58
number e0059 = 59
number e0060 = 60
number e0061 = 61
number e0062 = 62
number e0063 = 63
number e0100 = 100
number e0101 = 101
number e0102 = 102
number e0103 = 103
number e0104 = 104
number e0105 = 105
number e0106 = 106
number e0150 = 150
number e0151 = 151
number e0152 = 152
number e0153 = 153
number e0154 = 154
number e0155 = 155
number e0200 = 200
number e0201 = 201
number e0202 = 202
number e0203 = 203
number e0204 = 204
number e0205 = 205
number e0206 = 206
number e0207 = 207
number e0208 = 208
number e0209 = 209
number e0210 = 210
number e0211 = 211
number e0212 = 212
number e0213 = 213
number e0214 = 214
number e0215 = 215
number e0216 = 216
number e0217 = 217
number e0218 = 218
number e0219 = 219
number e0220 = 220
number e0300 = 300
number e0301 = 301
number e0302 = 302
number e0303 = 303
number e0304 = 304

-- The bytes of `write!(f, "E{:04}", n)`: four digits, which every code has.
abbrev pub digit : ℕ → ℕ
digit d = b'0' + d % 10

unfoldable pub display : DiagnosticCode → List ℕ
display c =
    let n = number c in b'E' ∷ digit (n / 1000) ∷ digit (n / 100) ∷ digit (n / 10) ∷ digit n ∷ []

pub data Severity : Type 0 where
  error warning note : Severity

pub data LabelStyle : Type 0 where
  primary secondary : LabelStyle

pub record Label : Type 0 where
  pub span : Span
  pub message : String
  pub style : LabelStyle

pub record Diagnostic : Type 0 where
  pub severity : Severity
  pub code : Option DiagnosticCode
  pub message : String
  pub span : Span
  pub labels : List Label
  pub hints : List String
  pub notes : List String

abbrev pub with_severity : Severity → String → Span → Diagnostic
with_severity severity message span = record {
  severity = severity;
  code = none;
  message = message;
  span = span;
  labels = [];
  hints = [];
  notes = [];
}

abbrev pub error_at : String → Span → Diagnostic
error_at = with_severity error

abbrev pub warning_at : String → Span → Diagnostic
warning_at = with_severity warning

abbrev pub note_at : String → Span → Diagnostic
note_at = with_severity note

abbrev pub with_code : DiagnosticCode → Diagnostic → Diagnostic
with_code code d = record d { code = some code }

abbrev pub with_label : Span → String → Diagnostic → Diagnostic
with_label span message d = record d {
  labels = d.labels ++ record { span = span; message = message; style = primary } ∷ [];
}

abbrev pub with_secondary_label : Span → String → Diagnostic → Diagnostic
with_secondary_label span message d = record d {
  labels = d.labels ++ record { span = span; message = message; style = secondary } ∷ [];
}

abbrev pub with_hint : String → Diagnostic → Diagnostic
with_hint hint d = record d { hints = d.hints ++ hint ∷ [] }

abbrev pub with_note : String → Diagnostic → Diagnostic
with_note text d = record d { notes = d.notes ++ text ∷ [] }
