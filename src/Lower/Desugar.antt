-- ===== src/Lower/Desugar.antt =====
-- The syntax that lower.rs works on, without what it leaves out: `<>` and pipelines are calls, and
-- the places of type names, fields and constructors in patterns are gone.
use asatsuyu.Base.{Option, none, some, List, [], ◌∷◌}
use asatsuyu.Syntax.Span.{Span, dummy}
use asatsuyu.Hir.{BinOp, string_concat}
use asatsuyu.Ast.{
  Ident, TypeExpr, TypeExprs, Param, Pattern, Patterns, Expr, Exprs, ExprOption, MatchArms,
}

abbrev pub unplaced : Ident → Ident
unplaced name = record { name = name.name; span = dummy }

unfoldable mutual
  pub plain_type : TypeExpr → TypeExpr
  plain_type (TypeExpr.named name args span) =
      TypeExpr.named (unplaced name) (plain_types args) span

  pub plain_types : TypeExprs → TypeExprs
  plain_types TypeExprs.no_type = TypeExprs.no_type
  plain_types (TypeExprs.then_type t ts) = TypeExprs.then_type (plain_type t) (plain_types ts)

abbrev pub plain_type_option : Option TypeExpr → Option TypeExpr
plain_type_option none = none
plain_type_option (some t) = some (plain_type t)

abbrev pub plain_param : Param → Param
plain_param p = record { name = p.name; type_ann = plain_type_option p.type_ann; span = p.span }

abbrev pub plain_params : List Param → List Param
plain_params [] = []
plain_params (p ∷ ps) = plain_param p ∷ plain_params ps

unfoldable mutual
  pub plain_pattern : Pattern → Pattern
  plain_pattern (Pattern.constructor name fields span) =
      Pattern.constructor (unplaced name) (plain_patterns fields) span
  plain_pattern (Pattern.list elements rest span) = Pattern.list (plain_patterns elements) rest span
  plain_pattern (Pattern.wildcard span) = Pattern.wildcard span
  plain_pattern (Pattern.variable name) = Pattern.variable name
  plain_pattern (Pattern.literal l) = Pattern.literal l

  pub plain_patterns : Patterns → Patterns
  plain_patterns Patterns.no_pattern = Patterns.no_pattern
  plain_patterns (Patterns.then_pattern p ps) =
      Patterns.then_pattern (plain_pattern p) (plain_patterns ps)

-- A value that is passed to what stands on the right of the pipe: a call takes it as its first
-- argument.
abbrev pub pass_to : Expr → Expr → Span → Expr
pass_to left (Expr.call func args _) span = Expr.call func (Exprs.then_expr left args) span
pass_to left other span = Expr.call other (Exprs.then_expr left Exprs.no_expr) span

abbrev pub plain_operation : BinOp → Expr → Expr → Span → Expr
plain_operation string_concat lhs rhs span =
    Expr.call (Expr.variable (record { name = "string_concat"; span = span }))
      (Exprs.then_expr lhs (Exprs.then_expr rhs Exprs.no_expr)) span
plain_operation op lhs rhs span = Expr.binary_op op lhs rhs span

unfoldable mutual
  unfolding plain_type plain_pattern

  pub plain_expr : Expr → Expr
  plain_expr (Expr.literal l) = Expr.literal l
  plain_expr (Expr.variable name) = Expr.variable name
  plain_expr (Expr.block exprs span) = Expr.block (plain_exprs exprs) span
  plain_expr (Expr.call func args span) = Expr.call (plain_expr func) (plain_exprs args) span
  plain_expr (Expr.binary_op op lhs rhs span) =
      plain_operation op (plain_expr lhs) (plain_expr rhs) span
  plain_expr (Expr.unary_op op e span) = Expr.unary_op op (plain_expr e) span
  plain_expr (Expr.if_expr condition then_body else_body span) =
      Expr.if_expr (plain_expr condition) (plain_expr then_body) (plain_option else_body) span
  plain_expr (Expr.match_expr subject arms span) =
      Expr.match_expr (plain_expr subject) (plain_arms arms) span
  plain_expr (Expr.pipeline left right span) = pass_to (plain_expr left) (plain_expr right) span
  plain_expr (Expr.let_expr name value is_mutable span) =
      Expr.let_expr name (plain_expr value) is_mutable span
  plain_expr (Expr.assign target value span) = Expr.assign target (plain_expr value) span
  plain_expr (Expr.lambda params return_type body span) =
      Expr.lambda (plain_params params) (plain_type_option return_type) (plain_expr body) span
  plain_expr (Expr.field_access receiver field span) =
      Expr.field_access (plain_expr receiver) (unplaced field) span
  plain_expr (Expr.try_expr e span) = Expr.try_expr (plain_expr e) span
  plain_expr (Expr.await_expr e span) = Expr.await_expr (plain_expr e) span
  plain_expr (Expr.list elements span) = Expr.list (plain_exprs elements) span

  pub plain_exprs : Exprs → Exprs
  plain_exprs Exprs.no_expr = Exprs.no_expr
  plain_exprs (Exprs.then_expr e es) = Exprs.then_expr (plain_expr e) (plain_exprs es)

  pub plain_option : ExprOption → ExprOption
  plain_option ExprOption.absent = ExprOption.absent
  plain_option (ExprOption.present e) = ExprOption.present (plain_expr e)

  pub plain_arms : MatchArms → MatchArms
  plain_arms MatchArms.no_arm = MatchArms.no_arm
  plain_arms (MatchArms.then_arm pattern guard body span arms) =
      MatchArms.then_arm (plain_pattern pattern) (plain_option guard) (plain_expr body) span
        (plain_arms arms)
