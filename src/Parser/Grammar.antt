-- ===== src/Parser/Grammar.antt =====
-- The loops that the rules of asatsuyu/crates/asatsuyu-parser/src/grammar.rs share, and the rules
-- for types, imports and parameters. A rule that calls itself or loops takes fuel.
pub mod Items
pub mod Patterns
pub mod Exprs
pub mod TopLevel
use asatsuyu.Base.{ℕ, zero, suc, Bool, true, false, not, ◌&&◌, List, [], ◌∷◌, String, ◌==◌}
use asatsuyu.Syntax.Kind.{
  SyntaxKind, ident, l_paren, r_paren, comma, eof, type_expr, colon, l_brace, param, param_list,
  return_type,
}
use asatsuyu.Syntax.Diagnostic.{DiagnosticCode, e0057, e0053, e0059}
use asatsuyu.Parser.TokenSet.{new_set}
use asatsuyu.Parser.State.{Parser, at, at_eof}
use asatsuyu.Parser.Monad.{M, ok, ◌>>=◌, ◌>>◌, done, no_fuel, ask, when, branch}
use asatsuyu.Parser.Core.{
  bump, expect, must, start_node, finish_node, error_and_bump, error_recover_until,
}

-- `while p.at(Comma) { p.bump(); if p.at(RParen) { break; } item(p); }`
unfoldable pub more_items : M (Unit {0}) → ℕ → M (Unit {0})
unfolding bump
more_items item zero = no_fuel
more_items item (suc fuel) =
    when (at comma) (do bump; branch (at r_paren) done (do item; more_items item fuel))

-- `p.bump(); if !p.at(RParen) && !p.at_eof() { item(p); while .. } p.expect(RParen);`
unfoldable pub paren_items : M (Unit {0}) → ℕ → M (Unit {0})
unfolding more_items must bump
paren_items item fuel = do
  bump
  when (λ p. not (at r_paren p) && not (at_eof p)) (do item; more_items item fuel)
  must r_paren

-- The loop over items that ends at `stop` or the end of the input, or behind an item that no comma
-- follows; a token that an item refuses is consumed as an error.
unfoldable pub delimited : (Parser → Bool) → M (Unit {0}) → String → ℕ → M (Unit {0})
unfolding bump error_and_bump
delimited stop item message zero = no_fuel
delimited stop item message (suc fuel) =
    branch (λ p. not (stop p) && not (at_eof p))
      (do
        prev ← ask (λ p. p.pos)
        item
        branch (at comma) (do bump; delimited stop item message fuel)
            (branch stop (delimited stop item message fuel)
              (when (λ p. p.pos == prev) (error_and_bump message e0057))))
      done

unfoldable pub parse_type_expr : ℕ → M (Unit {0})
unfolding must paren_items
parse_type_expr zero = no_fuel
parse_type_expr (suc fuel) = do
  start_node type_expr
  must ident
  when (at l_paren) (paren_items (parse_type_expr fuel) fuel)
  finish_node

-- `parse_param` and its constant `PARAM_FOLLOW`
abbrev pub param_follow : ℕ
param_follow = new_set (comma ∷ r_paren ∷ l_brace ∷ [])

unfoldable pub param_type : Bool → ℕ → M (Unit {0})
unfolding bump parse_type_expr error_recover_until new_set
param_type require_type_ann fuel =
    branch (at colon)
      (do
        bump
        branch (at ident) (parse_type_expr fuel)
            (error_recover_until "expected parameter type" param_follow e0053))
      (when (λ _. require_type_ann)
        (error_recover_until "expected `:` after parameter name" param_follow e0053))

unfoldable pub parse_param : Bool → ℕ → M (Unit {0})
unfolding expect error_recover_until param_type
parse_param require_type_ann fuel = do
  start_node param
  found ← expect ident
  branch (λ _. found) (param_type require_type_ann fuel)
      (error_recover_until "expected parameter name" param_follow e0053)
  finish_node

unfoldable pub parse_param_list_with_mode : Bool → ℕ → M (Unit {0})
unfolding bump delimited parse_param must
parse_param_list_with_mode require_type_ann fuel = do
  start_node param_list
  bump
  delimited (at r_paren) (parse_param require_type_ann fuel) "unexpected token in parameter list"
      fuel
  must r_paren
  finish_node

unfoldable pub parse_param_list : ℕ → M (Unit {0})
unfolding parse_param_list_with_mode
parse_param_list fuel = parse_param_list_with_mode true fuel

unfoldable pub parse_lambda_param_list : ℕ → M (Unit {0})
unfolding parse_param_list_with_mode
parse_lambda_param_list fuel = parse_param_list_with_mode false fuel

unfoldable pub parse_return_type : ℕ → M (Unit {0})
unfolding bump parse_type_expr error_recover_until new_set
parse_return_type fuel = do
  start_node return_type
  bump
  branch (at ident) (parse_type_expr fuel)
      (error_recover_until "expected return type" (new_set (l_brace ∷ [])) e0059)
  finish_node
