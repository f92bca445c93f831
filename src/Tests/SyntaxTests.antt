-- ===== src/Tests/SyntaxTests.antt =====
-- Spans, lines, kinds and keywords on concrete inputs.
use asatsuyu.Base.{refl, ℕ, ◌+◌, ◌<◌, ◌≡◌, ◌↔◌, true, false, some, none, List, [], ◌∷◌, arith}
use asatsuyu.Syntax.Span.{Span, new_span, contains, is_empty, len, new_index, line_col}
use asatsuyu.Syntax.Span.Lines.{walk, at, line_col-walk, line_col-beyond}
use asatsuyu.Syntax.Span.Range.{contains_iff, is_empty_iff}
use asatsuyu.Syntax.Diagnostic.{e0300}
use asatsuyu.Syntax.Diagnostic.Codes.{display_injective}
use asatsuyu.Syntax.Kind.{from_u16, to_u16, await_kw}
use asatsuyu.Syntax.Kind.Laws.{from_u16_iff}
use asatsuyu.Syntax.Keyword.{kind_of_text, text_of}
use asatsuyu.Syntax.Keyword.Laws.{kind_of_text_iff}

-- "a\nb"
abbrev two_lines : List ℕ
two_lines = b'a' ∷ b'\n' ∷ b'b' ∷ []

line_col-walk_example : line_col (new_index two_lines) 2 ≡ some (walk two_lines 2 (at 1 1))
line_col-walk_example = line_col-walk two_lines 2 (omega arith) (omega arith)

line_col-beyond_example : line_col (new_index two_lines) 4 ≡ none
line_col-beyond_example = line_col-beyond two_lines 4 (omega arith) (omega arith)

abbrev four_to_seven : Span
four_to_seven = new_span 0 4 7

contains_iff_example :
    (contains four_to_seven 6 ≡ true) ↔ ((i : ℕ) × (i < len four_to_seven) × (6 ≡ 4 + i))
contains_iff_example = contains_iff four_to_seven 6 (omega arith) (omega arith)

is_empty_iff_example :
    (is_empty four_to_seven ≡ true) ↔ ((o : ℕ) → contains four_to_seven o ≡ false)
is_empty_iff_example = is_empty_iff four_to_seven (omega arith)

from_u16_iff_example : (from_u16 16 ≡ some await_kw) ↔ ((to_u16 await_kw ≡ 16) × (16 < 102))
from_u16_iff_example = from_u16_iff 16 await_kw

kind_of_text_iff_example :
    (kind_of_text "await" ≡ some await_kw) ↔ (text_of await_kw ≡ some "await")
kind_of_text_iff_example = kind_of_text_iff "await" await_kw

display_injective_example : e0300 ≡ e0300
display_injective_example = display_injective e0300 e0300 refl
