-- ===== src/Parser/Grammar/Items.antt =====
-- The rules for type definitions and imports of grammar.rs.
use asatsuyu.Base.{ℕ, zero, suc, Bool, not, ◌&&◌, String}
use asatsuyu.Syntax.Kind.{
  SyntaxKind, same_kind, ident, l_paren, colon, l_brace, r_brace, type_param, variant, field,
  type_def, pub_kw, type_kw, visibility, import_stmt, from_python_import_stmt, dot, as_kw,
  python_kw, import_kw,
}
use asatsuyu.Syntax.Diagnostic.{e0057, e0058, e0061}
use asatsuyu.Parser.TokenSet.{empty, top_level_recovery, contains}
use asatsuyu.Parser.State.{Parser, at, at_any, at_eof, nth}
use asatsuyu.Parser.Monad.{M, ◌>>=◌, ◌>>◌, done, no_fuel, when, branch}
use asatsuyu.Parser.Core.{
  bump, expect, must, start_node, finish_node, error_and_bump, error_recover_until,
}
use asatsuyu.Parser.Grammar.{paren_items, parse_type_expr}

unfoldable pub parse_visibility : M (Unit {0})
unfolding bump
parse_visibility = do start_node visibility; bump; finish_node

unfoldable pub parse_type_param : M (Unit {0})
unfolding must
parse_type_param = do start_node type_param; must ident; finish_node

unfoldable pub parse_type_param_list : ℕ → M (Unit {0})
unfolding paren_items parse_type_param
parse_type_param_list fuel = paren_items parse_type_param fuel

unfoldable pub parse_record_field : ℕ → M (Unit {0})
unfolding must parse_type_expr
parse_record_field fuel = do
  start_node field
  must ident
  must colon
  parse_type_expr fuel
  finish_node

-- `p.at(Ident) && p.nth(1) == Colon`
abbrev pub at_label : Parser → Bool
at_label p = at ident p && same_kind (nth 1 p) colon

unfoldable pub parse_variant_field : ℕ → M (Unit {0})
unfolding bump parse_type_expr
parse_variant_field fuel = do
  start_node field
  when at_label (do bump; bump)
  parse_type_expr fuel
  finish_node

unfoldable pub parse_variant : ℕ → M (Unit {0})
unfolding must paren_items parse_variant_field
parse_variant fuel = do
  start_node variant
  must ident
  when (at l_paren) (paren_items (parse_variant_field fuel) fuel)
  finish_node

abbrev pub in_type_body : Parser → Bool
in_type_body p = not (at r_brace p) && not (at_eof p) && not (at_any top_level_recovery p)

-- Both loops of `parse_type_body`, over fields and over variants.
unfoldable pub body_loop : (ℕ → M (Unit {0})) → String → ℕ → M (Unit {0})
unfolding error_and_bump top_level_recovery contains
body_loop rule message zero = no_fuel
body_loop rule message (suc fuel) =
    branch in_type_body
      (do branch (at ident) (rule fuel) (error_and_bump message e0057); body_loop rule message fuel)
      done

unfoldable pub parse_type_body : ℕ → M (Unit {0})
unfolding body_loop parse_record_field parse_variant
parse_type_body fuel = branch (at r_brace) done (
    branch at_label (body_loop parse_record_field "expected field definition" fuel)
      (body_loop parse_variant "expected variant definition" fuel))

unfoldable pub parse_type_def : ℕ → M (Unit {0})
unfolding parse_visibility must parse_type_param_list bump parse_type_body error_recover_until
parse_type_def fuel = do
  start_node type_def
  when (at pub_kw) parse_visibility
  must type_kw
  must ident
  when (at l_paren) (parse_type_param_list fuel)
  branch (at l_brace) (do bump; parse_type_body fuel; must r_brace)
      (error_recover_until "expected type body" empty e0058)
  finish_node

-- `if !p.expect(kind) { recover } else rest`
abbrev pub expect_or : SyntaxKind → String → M (Unit {0}) → M (Unit {0})
expect_or kind message rest = do
  found ← expect kind
  branch (λ _. found) rest (error_recover_until message empty e0061)

unfoldable pub import_alias : M (Unit {0})
unfolding bump expect error_recover_until
import_alias = when (at as_kw) (do bump; expect_or ident "expected alias name after `as`" done)

-- The path segments behind the first name, and the alias.
unfoldable pub import_path : ℕ → M (Unit {0})
unfolding bump expect error_recover_until import_alias
import_path zero = no_fuel
import_path (suc fuel) =
    branch (at dot) (do bump; expect_or ident "expected module name after `.`" (import_path fuel))
      import_alias

unfoldable pub parse_import : ℕ → M (Unit {0})
unfolding bump expect error_recover_until import_path
parse_import fuel = do
  start_node import_stmt
  bump
  expect_or ident "expected module name" (import_path fuel)
  finish_node

unfoldable pub parse_from_python_import : M (Unit {0})
unfolding bump expect error_recover_until import_alias
parse_from_python_import = do
  start_node from_python_import_stmt
  bump
  branch (at python_kw)
      (do
        bump
        expect_or import_kw "expected `import` after `from python`"
            (expect_or ident "expected module name after `import`" import_alias))
      (error_recover_until "expected `python` after `from`" empty e0061)
  finish_node
