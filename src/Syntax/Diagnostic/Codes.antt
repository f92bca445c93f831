-- ===== src/Syntax/Diagnostic/Codes.antt =====
-- The display of a code determines the code.
use asatsuyu.Base.{
  ℕ, ◌-◌, find, ◌==◌, ◌+◌, ◌*◌, ◌≡◌, refl, ap, ◌∙◌, sym, Option, some, List, [], ◌∷◌,
}
use asatsuyu.Syntax.Diagnostic.{DiagnosticCode, number, display}

abbrev codes : List DiagnosticCode
codes =
    DiagnosticCode.e0001 ∷ DiagnosticCode.e0050 ∷ DiagnosticCode.e0051 ∷ DiagnosticCode.e0052
    ∷ DiagnosticCode.e0053 ∷ DiagnosticCode.e0054 ∷ DiagnosticCode.e0055 ∷ DiagnosticCode.e0056
    ∷ DiagnosticCode.e0057 ∷ DiagnosticCode.e0058 ∷ DiagnosticCode.e0059 ∷ DiagnosticCode.e0060
    ∷ DiagnosticCode.e0061 ∷ DiagnosticCode.e0062 ∷ DiagnosticCode.e0063 ∷ DiagnosticCode.e0100
    ∷ DiagnosticCode.e0101 ∷ DiagnosticCode.e0102 ∷ DiagnosticCode.e0103 ∷ DiagnosticCode.e0104
    ∷ DiagnosticCode.e0105 ∷ DiagnosticCode.e0106 ∷ DiagnosticCode.e0150 ∷ DiagnosticCode.e0151
    ∷ DiagnosticCode.e0152 ∷ DiagnosticCode.e0153 ∷ DiagnosticCode.e0154 ∷ DiagnosticCode.e0155
    ∷ DiagnosticCode.e0200 ∷ DiagnosticCode.e0201 ∷ DiagnosticCode.e0202 ∷ DiagnosticCode.e0203
    ∷ DiagnosticCode.e0204 ∷ DiagnosticCode.e0205 ∷ DiagnosticCode.e0206 ∷ DiagnosticCode.e0207
    ∷ DiagnosticCode.e0208 ∷ DiagnosticCode.e0209 ∷ DiagnosticCode.e0210 ∷ DiagnosticCode.e0211
    ∷ DiagnosticCode.e0212 ∷ DiagnosticCode.e0213 ∷ DiagnosticCode.e0214 ∷ DiagnosticCode.e0215
    ∷ DiagnosticCode.e0216 ∷ DiagnosticCode.e0217 ∷ DiagnosticCode.e0218 ∷ DiagnosticCode.e0219
    ∷ DiagnosticCode.e0220 ∷ DiagnosticCode.e0300 ∷ DiagnosticCode.e0301 ∷ DiagnosticCode.e0302
    ∷ DiagnosticCode.e0303 ∷ DiagnosticCode.e0304 ∷ []

-- The code with a number.
code_of : ℕ → Option DiagnosticCode
unfolding find
code_of n = find (λ c. number c == n) codes

code_of-number : (c : DiagnosticCode) → code_of (number c) ≡ some c
unfolding code_of find
code_of-number DiagnosticCode.e0001 = refl
code_of-number DiagnosticCode.e0050 = refl
code_of-number DiagnosticCode.e0051 = refl
code_of-number DiagnosticCode.e0052 = refl
code_of-number DiagnosticCode.e0053 = refl
code_of-number DiagnosticCode.e0054 = refl
code_of-number DiagnosticCode.e0055 = refl
code_of-number DiagnosticCode.e0056 = refl
code_of-number DiagnosticCode.e0057 = refl
code_of-number DiagnosticCode.e0058 = refl
code_of-number DiagnosticCode.e0059 = refl
code_of-number DiagnosticCode.e0060 = refl
code_of-number DiagnosticCode.e0061 = refl
code_of-number DiagnosticCode.e0062 = refl
code_of-number DiagnosticCode.e0063 = refl
code_of-number DiagnosticCode.e0100 = refl
code_of-number DiagnosticCode.e0101 = refl
code_of-number DiagnosticCode.e0102 = refl
code_of-number DiagnosticCode.e0103 = refl
code_of-number DiagnosticCode.e0104 = refl
code_of-number DiagnosticCode.e0105 = refl
code_of-number DiagnosticCode.e0106 = refl
code_of-number DiagnosticCode.e0150 = refl
code_of-number DiagnosticCode.e0151 = refl
code_of-number DiagnosticCode.e0152 = refl
code_of-number DiagnosticCode.e0153 = refl
code_of-number DiagnosticCode.e0154 = refl
code_of-number DiagnosticCode.e0155 = refl
code_of-number DiagnosticCode.e0200 = refl
code_of-number DiagnosticCode.e0201 = refl
code_of-number DiagnosticCode.e0202 = refl
code_of-number DiagnosticCode.e0203 = refl
code_of-number DiagnosticCode.e0204 = refl
code_of-number DiagnosticCode.e0205 = refl
code_of-number DiagnosticCode.e0206 = refl
code_of-number DiagnosticCode.e0207 = refl
code_of-number DiagnosticCode.e0208 = refl
code_of-number DiagnosticCode.e0209 = refl
code_of-number DiagnosticCode.e0210 = refl
code_of-number DiagnosticCode.e0211 = refl
code_of-number DiagnosticCode.e0212 = refl
code_of-number DiagnosticCode.e0213 = refl
code_of-number DiagnosticCode.e0214 = refl
code_of-number DiagnosticCode.e0215 = refl
code_of-number DiagnosticCode.e0216 = refl
code_of-number DiagnosticCode.e0217 = refl
code_of-number DiagnosticCode.e0218 = refl
code_of-number DiagnosticCode.e0219 = refl
code_of-number DiagnosticCode.e0220 = refl
code_of-number DiagnosticCode.e0300 = refl
code_of-number DiagnosticCode.e0301 = refl
code_of-number DiagnosticCode.e0302 = refl
code_of-number DiagnosticCode.e0303 = refl
code_of-number DiagnosticCode.e0304 = refl

-- The number that five displayed bytes stand for.
read : List ℕ → ℕ
read (_ ∷ a ∷ b ∷ c ∷ d ∷ []) = (a - b'0') * 1000 + (b - b'0') * 100 + (c - b'0') * 10 + (d - b'0')
read _ = 0

read-display : (c : DiagnosticCode) → read (display c) ≡ number c
unfolding read display
read-display DiagnosticCode.e0001 = refl
read-display DiagnosticCode.e0050 = refl
read-display DiagnosticCode.e0051 = refl
read-display DiagnosticCode.e0052 = refl
read-display DiagnosticCode.e0053 = refl
read-display DiagnosticCode.e0054 = refl
read-display DiagnosticCode.e0055 = refl
read-display DiagnosticCode.e0056 = refl
read-display DiagnosticCode.e0057 = refl
read-display DiagnosticCode.e0058 = refl
read-display DiagnosticCode.e0059 = refl
read-display DiagnosticCode.e0060 = refl
read-display DiagnosticCode.e0061 = refl
read-display DiagnosticCode.e0062 = refl
read-display DiagnosticCode.e0063 = refl
read-display DiagnosticCode.e0100 = refl
read-display DiagnosticCode.e0101 = refl
read-display DiagnosticCode.e0102 = refl
read-display DiagnosticCode.e0103 = refl
read-display DiagnosticCode.e0104 = refl
read-display DiagnosticCode.e0105 = refl
read-display DiagnosticCode.e0106 = refl
read-display DiagnosticCode.e0150 = refl
read-display DiagnosticCode.e0151 = refl
read-display DiagnosticCode.e0152 = refl
read-display DiagnosticCode.e0153 = refl
read-display DiagnosticCode.e0154 = refl
read-display DiagnosticCode.e0155 = refl
read-display DiagnosticCode.e0200 = refl
read-display DiagnosticCode.e0201 = refl
read-display DiagnosticCode.e0202 = refl
read-display DiagnosticCode.e0203 = refl
read-display DiagnosticCode.e0204 = refl
read-display DiagnosticCode.e0205 = refl
read-display DiagnosticCode.e0206 = refl
read-display DiagnosticCode.e0207 = refl
read-display DiagnosticCode.e0208 = refl
read-display DiagnosticCode.e0209 = refl
read-display DiagnosticCode.e0210 = refl
read-display DiagnosticCode.e0211 = refl
read-display DiagnosticCode.e0212 = refl
read-display DiagnosticCode.e0213 = refl
read-display DiagnosticCode.e0214 = refl
read-display DiagnosticCode.e0215 = refl
read-display DiagnosticCode.e0216 = refl
read-display DiagnosticCode.e0217 = refl
read-display DiagnosticCode.e0218 = refl
read-display DiagnosticCode.e0219 = refl
read-display DiagnosticCode.e0220 = refl
read-display DiagnosticCode.e0300 = refl
read-display DiagnosticCode.e0301 = refl
read-display DiagnosticCode.e0302 = refl
read-display DiagnosticCode.e0303 = refl
read-display DiagnosticCode.e0304 = refl

-- Codes that are displayed alike are equal.
pub display_injective : (c d : DiagnosticCode) → display c ≡ display d → c ≡ d
display_injective c d e =
    let same : number c ≡ number d = sym (read-display c) ∙ ap read e ∙ read-display d in
    cc (code_of-number c, code_of-number d, same)
