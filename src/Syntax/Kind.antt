-- ===== src/Syntax/Kind.antt =====
-- asatsuyu/crates/asatsuyu-syntax/src/syntax_kind.rs: the kinds of tokens and of tree nodes, their
-- `u16` values, and the classification by position.
pub mod Laws
use asatsuyu.Base.{
  ℕ, suc, ◌+◌, ◌<◌, ◌≤◌, ◌≡◌, refl, ◌≢◌, Bool, true, false, not, ◌&&◌, Option, none, some, List, [],
  ◌∷◌, ltb, leb, ◌==◌, if◌then◌else◌, arith, get_elem?,
}

-- The tokens up to `eof`, then the nodes. `last` is the source's `__LAST`.
pub data SyntaxKind : Type 0 where
  fn_kw pub_kw let_kw type_kw match_kw if_kw else_kw import_kw from_kw python_kw as_kw true_kw :
      SyntaxKind
  false_kw try_kw mut_kw async_kw await_kw pure_kw int_lit float_lit string_lit ident plus :
      SyntaxKind
  minus star slash percent eq eq_eq bang_eq lt lt_eq gt gt_eq bang ampersand pipe_single :
      SyntaxKind
  amp_amp pipe_pipe pipe string_concat l_paren r_paren l_brace r_brace l_bracket r_bracket :
      SyntaxKind
  comma colon semicolon dot dot_dot arrow underscore whitespace newline comment error eof :
      SyntaxKind
  source_file fn_def type_def import_stmt from_python_import_stmt let_stmt assign_stmt : SyntaxKind
  literal_expr ident_expr call_expr pipeline_expr match_expr if_expr lambda_expr block_expr :
      SyntaxKind
  binary_expr unary_expr field_access_expr list_expr tuple_expr record_expr paren_expr try_expr :
      SyntaxKind
  await_expr wildcard_pat ident_pat literal_pat constructor_pat list_pat tuple_pat type_expr :
      SyntaxKind
  type_param variant field match_arm guard param param_list arg_list return_type visibility :
      SyntaxKind
  path node_error last : SyntaxKind

-- `kind as u16`: the position of the variant in the enum.
abbrev pub to_u16 : SyntaxKind → ℕ
to_u16 fn_kw = 0
to_u16 pub_kw = 1
to_u16 let_kw = 2
to_u16 type_kw = 3
to_u16 match_kw = 4
to_u16 if_kw = 5
to_u16 else_kw = 6
to_u16 import_kw = 7
to_u16 from_kw = 8
to_u16 python_kw = 9
to_u16 as_kw = 10
to_u16 true_kw = 11
to_u16 false_kw = 12
to_u16 try_kw = 13
to_u16 mut_kw = 14
to_u16 async_kw = 15
to_u16 await_kw = 16
to_u16 pure_kw = 17
to_u16 int_lit = 18
to_u16 float_lit = 19
to_u16 string_lit = 20
to_u16 ident = 21
to_u16 plus = 22
to_u16 minus = 23
to_u16 star = 24
to_u16 slash = 25
to_u16 percent = 26
to_u16 eq = 27
to_u16 eq_eq = 28
to_u16 bang_eq = 29
to_u16 lt = 30
to_u16 lt_eq = 31
to_u16 gt = 32
to_u16 gt_eq = 33
to_u16 bang = 34
to_u16 ampersand = 35
to_u16 pipe_single = 36
to_u16 amp_amp = 37
to_u16 pipe_pipe = 38
to_u16 pipe = 39
to_u16 string_concat = 40
to_u16 l_paren = 41
to_u16 r_paren = 42
to_u16 l_brace = 43
to_u16 r_brace = 44
to_u16 l_bracket = 45
to_u16 r_bracket = 46
to_u16 comma = 47
to_u16 colon = 48
to_u16 semicolon = 49
to_u16 dot = 50
to_u16 dot_dot = 51
to_u16 arrow = 52
to_u16 underscore = 53
to_u16 whitespace = 54
to_u16 newline = 55
to_u16 comment = 56
to_u16 error = 57
to_u16 eof = 58
to_u16 source_file = 59
to_u16 fn_def = 60
to_u16 type_def = 61
to_u16 import_stmt = 62
to_u16 from_python_import_stmt = 63
to_u16 let_stmt = 64
to_u16 assign_stmt = 65
to_u16 literal_expr = 66
to_u16 ident_expr = 67
to_u16 call_expr = 68
to_u16 pipeline_expr = 69
to_u16 match_expr = 70
to_u16 if_expr = 71
to_u16 lambda_expr = 72
to_u16 block_expr = 73
to_u16 binary_expr = 74
to_u16 unary_expr = 75
to_u16 field_access_expr = 76
to_u16 list_expr = 77
to_u16 tuple_expr = 78
to_u16 record_expr = 79
to_u16 paren_expr = 80
to_u16 try_expr = 81
to_u16 await_expr = 82
to_u16 wildcard_pat = 83
to_u16 ident_pat = 84
to_u16 literal_pat = 85
to_u16 constructor_pat = 86
to_u16 list_pat = 87
to_u16 tuple_pat = 88
to_u16 type_expr = 89
to_u16 type_param = 90
to_u16 variant = 91
to_u16 field = 92
to_u16 match_arm = 93
to_u16 guard = 94
to_u16 param = 95
to_u16 param_list = 96
to_u16 arg_list = 97
to_u16 return_type = 98
to_u16 visibility = 99
to_u16 path = 100
to_u16 node_error = 101
to_u16 last = 102

-- The variants below `last`, in the order of the enum.
abbrev pub variants : List SyntaxKind
variants =
    fn_kw ∷ pub_kw ∷ let_kw ∷ type_kw ∷ match_kw ∷ if_kw ∷ else_kw ∷ import_kw ∷ from_kw ∷ python_kw
    ∷ as_kw ∷ true_kw ∷ false_kw ∷ try_kw ∷ mut_kw ∷ async_kw ∷ await_kw ∷ pure_kw ∷ int_lit
    ∷ float_lit ∷ string_lit ∷ ident ∷ plus ∷ minus ∷ star ∷ slash ∷ percent ∷ eq ∷ eq_eq ∷ bang_eq
    ∷ lt ∷ lt_eq ∷ gt ∷ gt_eq ∷ bang ∷ ampersand ∷ pipe_single ∷ amp_amp ∷ pipe_pipe ∷ pipe
    ∷ string_concat ∷ l_paren ∷ r_paren ∷ l_brace ∷ r_brace ∷ l_bracket ∷ r_bracket ∷ comma ∷ colon
    ∷ semicolon ∷ dot ∷ dot_dot ∷ arrow ∷ underscore ∷ whitespace ∷ newline ∷ comment ∷ error ∷ eof
    ∷ source_file ∷ fn_def ∷ type_def ∷ import_stmt ∷ from_python_import_stmt ∷ let_stmt
    ∷ assign_stmt ∷ literal_expr ∷ ident_expr ∷ call_expr ∷ pipeline_expr ∷ match_expr ∷ if_expr
    ∷ lambda_expr ∷ block_expr ∷ binary_expr ∷ unary_expr ∷ field_access_expr ∷ list_expr
    ∷ tuple_expr ∷ record_expr ∷ paren_expr ∷ try_expr ∷ await_expr ∷ wildcard_pat ∷ ident_pat
    ∷ literal_pat ∷ constructor_pat ∷ list_pat ∷ tuple_pat ∷ type_expr ∷ type_param ∷ variant
    ∷ field ∷ match_arm ∷ guard ∷ param ∷ param_list ∷ arg_list ∷ return_type ∷ visibility ∷ path
    ∷ node_error ∷ []

-- `From<u16>`: the assertion fails (`none`) from `last` on; the transmute picks the variant.
pub from_u16 : ℕ → Option SyntaxKind
from_u16 raw = if ltb raw (to_u16 last) then get_elem? variants raw else none

abbrev pub is_trivia : SyntaxKind → Bool
is_trivia whitespace = true
is_trivia newline = true
is_trivia comment = true
is_trivia _ = false

-- Derived equality of the enum.
abbrev pub same_kind : SyntaxKind → SyntaxKind → Bool
same_kind a b = to_u16 a == to_u16 b

abbrev pub is_token : SyntaxKind → Bool
is_token k = leb (to_u16 k) (to_u16 eof)

pub is_node : SyntaxKind → Bool
is_node k = not (is_token k) && not (same_kind k last)
