-- ===== src/Parser/Rules/ExprRules/AllRules.antt =====
-- All rules for expressions end well with an amount of fuel that fits: by induction on the fuel.
use asatsuyu.Base.{ℕ, zero, suc, arith}
use asatsuyu.Parser.Rules.ExprRules
use asatsuyu.Parser.Rules.ExprRules.{Rules}
use asatsuyu.Parser.Rules.ExprRules.ControlRules
use asatsuyu.Parser.Rules.ExprRules.MatchRules

pub all-Rules : (fuel : ℕ) → Rules fuel
all-Rules zero = record {
  bp = λ m p f r. absurd (omega arith);
  expr = λ p f r. absurd (omega arith);
  atom = λ k p f e r. absurd (omega arith);
  prefix_rule = λ b p f s. absurd (omega arith);
  loop = λ c m p from f n e. absurd (omega arith);
  post = λ c b k p from f n e h t. absurd (omega arith);
  args = λ p f s. absurd (omega arith);
  list = λ p f s. absurd (omega arith);
  if_rule = λ p f s. absurd (omega arith);
  block = λ p f s. absurd (omega arith);
  statements = λ p f. absurd (omega arith);
  let_rule = λ p f s. absurd (omega arith);
  assign = λ p f s. absurd (omega arith);
  lambda = λ p f s. absurd (omega arith);
  guard_rule = λ p f s. absurd (omega arith);
  arm = λ p f r. absurd (omega arith);
  match_rule = λ p f s. absurd (omega arith);
  arms = λ p f. absurd (omega arith);
}
all-Rules (suc fuel) =
    let rules = all-Rules fuel in
    record {
      bp = ExprRules.parse_expr_bp-Good rules;
      expr = ExprRules.parse_expr-Good rules;
      atom = ExprRules.expr_atom-Good rules;
      prefix_rule = ExprRules.parse_prefix-Good rules;
      loop = ExprRules.expr_loop-Good rules;
      post = ExprRules.postfix-Good rules;
      args = ExprRules.parse_arg_list-Good rules;
      list = ExprRules.parse_list_expr-Good rules;
      if_rule = ControlRules.parse_if_expr-Good rules;
      block = ControlRules.parse_block_expr-Good rules;
      statements = ControlRules.block_loop-Good rules;
      let_rule = ControlRules.parse_let_stmt-Good rules;
      assign = ControlRules.parse_assign_stmt-Good rules;
      lambda = ControlRules.parse_lambda_expr-Good rules;
      guard_rule = ControlRules.parse_guard-Good rules;
      arm = MatchRules.parse_match_arm-Good rules;
      match_rule = MatchRules.parse_match_expr-Good rules;
      arms = MatchRules.match_loop-Good rules;
    }
