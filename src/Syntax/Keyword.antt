-- ===== src/Syntax/Keyword.antt =====
-- asatsuyu/crates/asatsuyu-syntax/src/keyword.rs: the keyword table and the three lookups in it,
-- with the keyword tests of syntax_kind.rs that go through the table.
pub mod Laws
use text.Mathlib.Text.{◌==◌}
use asatsuyu.Base.{Bool, true, false, Option, none, some, List, [], ◌∷◌, find, String}
use mathlib.Core.Option
use asatsuyu.Syntax.Kind.{
  SyntaxKind, same_kind, fn_kw, pub_kw, let_kw, mut_kw, type_kw, match_kw, if_kw, else_kw,
  import_kw, from_kw, try_kw, async_kw, await_kw, pure_kw, true_kw, false_kw, python_kw, as_kw,
}

pub data KeywordClass : Type 0 where
  hard literal contextual reserved : KeywordClass

pub record KeywordSpec : Type 0 where
  pub text : String
  pub kind : SyntaxKind
  pub class : KeywordClass

abbrev pub spec : String → SyntaxKind → KeywordClass → KeywordSpec
spec t k c = record { text = t; kind = k; class = c }

abbrev pub keywords : List KeywordSpec
keywords =
    spec "fn" fn_kw hard
    ∷ spec "pub" pub_kw hard
    ∷ spec "let" let_kw hard
    ∷ spec "mut" mut_kw hard
    ∷ spec "type" type_kw hard
    ∷ spec "match" match_kw hard
    ∷ spec "if" if_kw hard
    ∷ spec "else" else_kw hard
    ∷ spec "import" import_kw hard
    ∷ spec "from" from_kw hard
    ∷ spec "try" try_kw hard
    ∷ spec "async" async_kw hard
    ∷ spec "await" await_kw hard
    ∷ spec "pure" pure_kw hard
    ∷ spec "True" true_kw literal
    ∷ spec "False" false_kw literal
    ∷ spec "python" python_kw contextual
    ∷ spec "as" as_kw contextual
    ∷ []

unfoldable pub kind_of_text : String → Option SyntaxKind
kind_of_text text = Option.map (λ (s : KeywordSpec). s.kind) (find (λ s. s.text == text) keywords)

-- The loop of `class_of` and `text_of`: the first entry whose discriminant is that of `kind`.
pub spec_of_kind : SyntaxKind → Option KeywordSpec
spec_of_kind kind = find (λ s. same_kind s.kind kind) keywords

pub class_of : SyntaxKind → Option KeywordClass
class_of kind = Option.map (λ (s : KeywordSpec). s.class) (spec_of_kind kind)

pub text_of : SyntaxKind → Option String
text_of kind = Option.map (λ (s : KeywordSpec). s.text) (spec_of_kind kind)

pub is_keyword : SyntaxKind → Bool
is_keyword kind = elim (class_of kind) [ some _ ↦ true | none ↦ false ]

pub is_hard_keyword : SyntaxKind → Bool
is_hard_keyword kind = elim (class_of kind) [ some hard ↦ true | _ ↦ false ]

pub is_reserved_keyword : SyntaxKind → Bool
is_reserved_keyword kind = elim (class_of kind) [ some reserved ↦ true | _ ↦ false ]

pub is_literal_keyword : SyntaxKind → Bool
is_literal_keyword kind = elim (class_of kind) [ some literal ↦ true | _ ↦ false ]

pub is_contextual_keyword : SyntaxKind → Bool
is_contextual_keyword kind = elim (class_of kind) [ some contextual ↦ true | _ ↦ false ]

pub keyword_text : SyntaxKind → Option String
keyword_text kind = text_of kind
