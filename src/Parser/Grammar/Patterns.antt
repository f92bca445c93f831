-- ===== src/Parser/Grammar/Patterns.antt =====
-- The rules for patterns of grammar.rs.
use Prim.Native.Char.{code}
use asatsuyu.Base.{ℕ, zero, suc, Bool, false, ◌&&◌, ◌||◌, leb, String}
use asatsuyu.Syntax.Kind.{
  SyntaxKind, same_kind, ident, l_paren, r_paren, r_bracket, dot_dot, constructor_pat, wildcard_pat,
  literal_pat, ident_pat, list_pat, underscore, int_lit, float_lit, string_lit, true_kw, false_kw,
  l_bracket,
}
use asatsuyu.Syntax.Diagnostic.{e0056}
use asatsuyu.Parser.State.{Parser, at, nth, current, current_text}
use asatsuyu.Parser.Monad.{M, out_of_fuel, ◌>>◌, no_fuel, when, branch}
use asatsuyu.Parser.Core.{bump, must, start_node, finish_node, error_and_bump}
use asatsuyu.Parser.Grammar.{delimited}

-- A node around one token.
unfoldable pub leaf : SyntaxKind → M (Unit {0})
unfolding bump
leaf kind = do start_node kind; bump; finish_node

unfoldable pub parse_wildcard_pat : M (Unit {0})
unfolding leaf
parse_wildcard_pat = leaf wildcard_pat

unfoldable pub parse_literal_pat : M (Unit {0})
unfolding leaf
parse_literal_pat = leaf literal_pat

unfoldable pub parse_ident_pat : M (Unit {0})
unfolding leaf
parse_ident_pat = leaf ident_pat

-- `starts_with(char::is_uppercase)` on the text of an identifier, which is ASCII.
abbrev pub starts_uppercase : String → Bool
starts_uppercase String.[] = false
starts_uppercase (String.◌∷◌ c s) = leb b'A' (code c) && leb (code c) b'Z'

abbrev pub list_pat_stop : Parser → Bool
list_pat_stop p = at r_bracket p || at dot_dot p

unfoldable mutual
  unfolding leaf parse_wildcard_pat parse_literal_pat parse_ident_pat delimited must bump
      error_and_bump

  pub parse_pattern : ℕ → M (Unit {0})
  parse_pattern zero p = out_of_fuel
  parse_pattern (suc fuel) p = pattern_at fuel (current p) p

  -- The match of `parse_pattern` on the current kind.
  pub pattern_at : ℕ → SyntaxKind → M (Unit {0})
  pattern_at zero _ = no_fuel
  pattern_at (suc fuel) underscore = parse_wildcard_pat
  pattern_at (suc fuel) int_lit = parse_literal_pat
  pattern_at (suc fuel) float_lit = parse_literal_pat
  pattern_at (suc fuel) string_lit = parse_literal_pat
  pattern_at (suc fuel) true_kw = parse_literal_pat
  pattern_at (suc fuel) false_kw = parse_literal_pat
  pattern_at (suc fuel) ident =
      branch (λ p. same_kind (nth 1 p) l_paren) (parse_constructor_pat fuel)
        (branch (λ p. starts_uppercase (current_text p)) (leaf constructor_pat) parse_ident_pat)
  pattern_at (suc fuel) l_bracket = parse_list_pat fuel
  pattern_at (suc fuel) _ = error_and_bump "expected pattern" e0056

  pub parse_constructor_pat : ℕ → M (Unit {0})
  parse_constructor_pat zero = no_fuel
  parse_constructor_pat (suc fuel) = do
    start_node constructor_pat
    bump
    bump
    delimited (at r_paren) (parse_pattern fuel) "unexpected token in constructor pattern" fuel
    must r_paren
    finish_node

  pub parse_list_pat : ℕ → M (Unit {0})
  parse_list_pat zero = no_fuel
  parse_list_pat (suc fuel) = do
    start_node list_pat
    bump
    delimited list_pat_stop (parse_pattern fuel) "unexpected token in list pattern" fuel
    when (at dot_dot) (do bump; when (at ident) bump)
    must r_bracket
    finish_node
