-- ===== src/Parser/Grammar/Exprs.antt =====
-- The rules for expressions, statements and match arms of grammar.rs.
use asatsuyu.Base.{
  ℕ, zero, suc, Bool, true, false, not, ◌&&◌, Option, none, some, [], ◌∷◌, ltb, ◌==◌,
}
use asatsuyu.Syntax.Kind.{
  SyntaxKind, same_kind, pipe_pipe, amp_amp, eq_eq, bang_eq, lt, lt_eq, gt, gt_eq, pipe, plus,
  minus, string_concat, star, slash, percent, bang, l_paren, dot, unary_expr, paren_expr, r_paren,
  if_kw, match_kw, fn_kw, try_kw, await_kw, try_expr, await_expr, l_bracket, r_bracket, int_lit,
  float_lit, string_lit, true_kw, false_kw, ident, literal_expr, ident_expr, field_access_expr,
  call_expr, pipeline_expr, binary_expr, arg_list, if_expr, l_brace, r_brace, else_kw, list_expr,
  block_expr, let_kw, eq, let_stmt, mut_kw, assign_stmt, lambda_expr, arrow, guard, match_arm,
  match_expr,
}
use asatsuyu.Syntax.Diagnostic.{e0055, e0053, e0054, e0057, e0060, e0050, e0056}
use asatsuyu.Parser.TokenSet.{new_set, empty, pattern_start, contains}
use asatsuyu.Parser.State.{Parser, at, at_any, at_eof, nth, current}
use asatsuyu.Parser.Monad.{M, ok, ◌>>=◌, ◌>>◌, done, no_fuel, ask, when, branch}
use asatsuyu.Parser.Core.{
  bump, must, start_node, start_node_at, finish_node, checkpoint, error_here, error_and_bump,
  error_recover_until,
}
use asatsuyu.Parser.Grammar.{delimited, parse_lambda_param_list, parse_return_type}
use asatsuyu.Parser.Grammar.Patterns.{leaf, parse_pattern}

abbrev pub infix_binding_power : SyntaxKind → Option (ℕ × ℕ)
infix_binding_power pipe_pipe = some (1, 2)
infix_binding_power amp_amp = some (3, 4)
infix_binding_power eq_eq = some (5, 6)
infix_binding_power bang_eq = some (5, 6)
infix_binding_power lt = some (5, 6)
infix_binding_power lt_eq = some (5, 6)
infix_binding_power gt = some (5, 6)
infix_binding_power gt_eq = some (5, 6)
infix_binding_power pipe = some (7, 8)
infix_binding_power plus = some (7, 8)
infix_binding_power minus = some (7, 8)
infix_binding_power string_concat = some (7, 8)
infix_binding_power star = some (9, 10)
infix_binding_power slash = some (9, 10)
infix_binding_power percent = some (9, 10)
infix_binding_power _ = none

abbrev pub prefix_binding_power : SyntaxKind → Option ℕ
prefix_binding_power minus = some 11
prefix_binding_power bang = some 11
prefix_binding_power _ = none

abbrev pub postfix_binding_power : SyntaxKind → Option ℕ
postfix_binding_power l_paren = some 13
postfix_binding_power dot = some 15
postfix_binding_power _ = none

abbrev pub infix_node : SyntaxKind → SyntaxKind
infix_node pipe = pipeline_expr
infix_node _ = binary_expr

unfoldable pub parse_literal_expr : M (Unit {0})
unfolding leaf
parse_literal_expr = leaf literal_expr

unfoldable pub parse_ident_expr : M (Unit {0})
unfolding leaf
parse_ident_expr = leaf ident_expr

-- `p.at(Ident) && p.nth(1) == Eq`
abbrev pub at_assignment : Parser → Bool
at_assignment p = at ident p && same_kind (nth 1 p) eq

abbrev pub and_true : M (Unit {0}) → M Bool
and_true m = do m; λ p. ok true p

-- Each rule passes on one unit of fuel less. `expr_atom` gives `false` where the source returns
-- early.
unfoldable mutual
  unfolding bump must error_and_bump error_recover_until delimited parse_lambda_param_list
      parse_return_type leaf parse_pattern parse_literal_expr parse_ident_expr new_set pattern_start
      contains

  pub parse_expr_bp : ℕ → ℕ → M (Unit {0})
  parse_expr_bp zero min_bp = no_fuel
  parse_expr_bp (suc fuel) min_bp = do
    c ← checkpoint
    kind ← ask current
    more ← expr_atom fuel kind
    branch (λ _. more) (expr_loop fuel c min_bp) done

  -- `parse_expr`
  pub parse_expr : ℕ → M (Unit {0})
  parse_expr zero = no_fuel
  parse_expr (suc fuel) = parse_expr_bp fuel 0

  -- The prefix operator or the atom at a kind; both prefix operators have the binding power 11.
  pub expr_atom : ℕ → SyntaxKind → M Bool
  expr_atom zero _ = no_fuel
  expr_atom (suc fuel) minus = and_true (parse_prefix fuel 11)
  expr_atom (suc fuel) bang = and_true (parse_prefix fuel 11)
  expr_atom (suc fuel) l_paren =
      and_true (do start_node paren_expr; bump; parse_expr_bp fuel 0; must r_paren; finish_node)
  expr_atom (suc fuel) if_kw = and_true (parse_if_expr fuel)
  expr_atom (suc fuel) match_kw = and_true (parse_match_expr fuel)
  expr_atom (suc fuel) fn_kw = and_true (parse_lambda_expr fuel)
  expr_atom (suc fuel) try_kw =
      and_true (do start_node try_expr; bump; parse_expr_bp fuel 1; finish_node)
  expr_atom (suc fuel) await_kw =
      and_true (do start_node await_expr; bump; parse_expr_bp fuel 1; finish_node)
  expr_atom (suc fuel) l_bracket = and_true (parse_list_expr fuel)
  expr_atom (suc fuel) int_lit = and_true parse_literal_expr
  expr_atom (suc fuel) float_lit = and_true parse_literal_expr
  expr_atom (suc fuel) string_lit = and_true parse_literal_expr
  expr_atom (suc fuel) true_kw = and_true parse_literal_expr
  expr_atom (suc fuel) false_kw = and_true parse_literal_expr
  expr_atom (suc fuel) ident = and_true parse_ident_expr
  expr_atom (suc fuel) _ = do error_and_bump "expected expression" e0055; λ p. ok false p

  pub parse_prefix : ℕ → ℕ → M (Unit {0})
  parse_prefix zero right_bp = no_fuel
  parse_prefix (suc fuel) right_bp = do
    start_node unary_expr
    bump
    parse_expr_bp fuel right_bp
    finish_node

  -- The loop over postfix and infix operators.
  pub expr_loop : ℕ → ℕ → ℕ → M (Unit {0})
  expr_loop zero c min_bp = no_fuel
  expr_loop (suc fuel) c min_bp = do
    op ← ask current
    elim (postfix_binding_power op) [
      | some left_bp ↦
          branch (λ _. ltb left_bp min_bp) done (do postfix fuel c op; expr_loop fuel c min_bp)
      | none ↦ elim (infix_binding_power op) [
        | some (left_bp, right_bp) ↦
            branch (λ _. ltb left_bp min_bp) done
              (do
                start_node_at c (infix_node op)
                bump
                parse_expr_bp fuel right_bp
                finish_node
                expr_loop fuel c min_bp)
        | none ↦ done
      ]
    ]

  -- Only `(` and `.` have a postfix binding power.
  pub postfix : ℕ → ℕ → SyntaxKind → M (Unit {0})
  postfix zero c _ = no_fuel
  postfix (suc fuel) c dot = do start_node_at c field_access_expr; bump; must ident; finish_node
  postfix (suc fuel) c _ = do start_node_at c call_expr; parse_arg_list fuel; finish_node

  pub parse_arg_list : ℕ → M (Unit {0})
  parse_arg_list zero = no_fuel
  parse_arg_list (suc fuel) = do
    start_node arg_list
    bump
    delimited (at r_paren) (parse_expr_bp fuel 0) "unexpected token in argument list" fuel
    must r_paren
    finish_node

  pub parse_list_expr : ℕ → M (Unit {0})
  parse_list_expr zero = no_fuel
  parse_list_expr (suc fuel) = do
    start_node list_expr
    bump
    delimited (at r_bracket) (parse_expr_bp fuel 0) "unexpected token in list literal" fuel
    must r_bracket
    finish_node

  pub parse_if_expr : ℕ → M (Unit {0})
  parse_if_expr zero = no_fuel
  parse_if_expr (suc fuel) = do
    start_node if_expr
    bump
    parse_expr_bp fuel 0
    branch (at l_brace) (parse_block_expr fuel)
        (error_recover_until "expected block after `if` condition" (new_set (else_kw ∷ [])) e0060)
    when (at else_kw) (do
      bump
      branch (at if_kw) (parse_if_expr fuel) (
          branch (at l_brace) (parse_block_expr fuel)
            (error_recover_until "expected block or `if` after `else`" empty e0060)))
    finish_node

  pub parse_block_expr : ℕ → M (Unit {0})
  parse_block_expr zero = no_fuel
  parse_block_expr (suc fuel) = do
    start_node block_expr
    bump
    block_loop fuel
    must r_brace
    finish_node

  pub block_loop : ℕ → M (Unit {0})
  block_loop zero = no_fuel
  block_loop (suc fuel) =
      branch (λ p. not (at r_brace p) && not (at_eof p))
        (do
          prev ← ask (λ p. p.pos)
          branch (at let_kw) (parse_let_stmt fuel)
              (branch at_assignment (parse_assign_stmt fuel) (parse_expr fuel))
          when (λ p. p.pos == prev) (error_and_bump "unexpected token in block" e0057)
          block_loop fuel)
        done

  pub parse_let_stmt : ℕ → M (Unit {0})
  parse_let_stmt zero = no_fuel
  parse_let_stmt (suc fuel) = do
    start_node let_stmt
    bump
    when (at mut_kw) bump
    branch (at ident) bump
        (error_recover_until "expected binding name" (new_set (eq ∷ r_brace ∷ [])) e0055)
    must eq
    parse_expr fuel
    finish_node

  pub parse_assign_stmt : ℕ → M (Unit {0})
  parse_assign_stmt zero = no_fuel
  parse_assign_stmt (suc fuel) = do
    start_node assign_stmt
    bump
    must eq
    parse_expr fuel
    finish_node

  pub parse_lambda_expr : ℕ → M (Unit {0})
  parse_lambda_expr zero = no_fuel
  parse_lambda_expr (suc fuel) = do
    start_node lambda_expr
    bump
    branch (at l_paren) (parse_lambda_param_list fuel)
        (error_recover_until "expected parameter list" (new_set (l_brace ∷ arrow ∷ [])) e0053)
    when (at arrow) (parse_return_type fuel)
    branch (at l_brace) (parse_block_expr fuel)
        (error_recover_until "expected lambda body" empty e0054)
    finish_node

  pub parse_guard : ℕ → M (Unit {0})
  parse_guard zero = no_fuel
  parse_guard (suc fuel) = do start_node guard; bump; parse_expr_bp fuel 0; finish_node

  pub parse_match_arm : ℕ → M (Unit {0})
  parse_match_arm zero = no_fuel
  parse_match_arm (suc fuel) = do
    start_node match_arm
    parse_pattern fuel
    when (at if_kw) (parse_guard fuel)
    found_arrow ← branch (at arrow) (and_true bump) (do
      error_recover_until "expected `->` after pattern" (new_set (arrow ∷ [])) e0050
      branch (at arrow) (and_true bump) (λ p. ok false p))
    when (λ _. found_arrow) (parse_expr_bp fuel 0)
    finish_node

  pub parse_match_expr : ℕ → M (Unit {0})
  parse_match_expr zero = no_fuel
  parse_match_expr (suc fuel) = do
    start_node match_expr
    bump
    parse_expr_bp fuel 0
    branch (at l_brace) bump (error_here "expected block after match subject" e0060 "expected `{`")
    match_loop fuel
    must r_brace
    finish_node

  pub match_loop : ℕ → M (Unit {0})
  match_loop zero = no_fuel
  match_loop (suc fuel) =
      branch (λ p. not (at r_brace p) && not (at_eof p))
        (do
          prev ← ask (λ p. p.pos)
          branch (at_any pattern_start) (parse_match_arm fuel)
              (error_and_bump "expected pattern" e0056)
          branch (λ p. p.pos == prev) (error_and_bump "unexpected token in match" e0057)
              (match_loop fuel))
        done
