-- ===== src/Lower/Exprs.antt =====
-- Patterns and expressions of lower.rs.
use asatsuyu.Base.{ℕ, Bool, false, Option, none, some, List, [], ◌∷◌}
use asatsuyu.Syntax.Span.{Span}
use asatsuyu.Syntax.Diagnostic.{
  Diagnostic, DiagnosticCode, error_at, with_code, with_label, with_hint,
}
use asatsuyu.Hir.{
  DefKind, BinOp, string_concat, HirTypeExpr, HirTypeExprs, HirLiteral, HirParam, HirPattern,
  HirPatterns, HirExpr, HirExprs, HirExprOption, HirMatchArms,
}
use asatsuyu.Ast.{
  Ident, Literal, TypeExpr, TypeExprs, Param, Pattern, Patterns, Expr, Exprs, ExprOption, MatchArms,
}
use asatsuyu.Lower.Context.{
  M, ◌>>=◌, ◌>>◌, pure, new_def, push, pop, resolve, report, quoted, define_local,
}

unfoldable mutual
  pub lower_type_expr : TypeExpr → HirTypeExpr
  lower_type_expr (TypeExpr.named name args span) =
      HirTypeExpr.type_expr name.name (lower_type_exprs args) span

  pub lower_type_exprs : TypeExprs → HirTypeExprs
  lower_type_exprs TypeExprs.no_type = HirTypeExprs.no_type
  lower_type_exprs (TypeExprs.then_type t ts) =
      HirTypeExprs.then_type (lower_type_expr t) (lower_type_exprs ts)

abbrev pub lower_type_option : Option TypeExpr → Option HirTypeExpr
lower_type_option none = none
lower_type_option (some t) = some (lower_type_expr t)

abbrev pub lower_literal : Literal → HirLiteral
lower_literal l = record { kind = l.kind; value = l.value; span = l.span }

-- A definition of a kind that is bound in the innermost scope.
unfoldable pub bind_local : DefKind → Bool → Ident → M ℕ
unfolding define_local
bind_local kind is_mutable name = do
  id ← new_def kind is_mutable name
  define_local name id
  pure id

abbrev pub unresolved_name : Ident → Diagnostic
unresolved_name name =
    with_code DiagnosticCode.e0152 (error_at (quoted "unresolved name " name.name "") name.span)

abbrev pub unresolved_constructor : Ident → Diagnostic
unresolved_constructor name = with_hint "constructors must be defined in a type declaration" (
    with_label name.span "unknown constructor" (
      with_code DiagnosticCode.e0153
        (error_at (quoted "unresolved constructor " name.name "") name.span)))

-- The definition of a name, or a placeholder for it and a diagnostic.
abbrev pub or_placeholder : DefKind → (Ident → Diagnostic) → Ident → Option ℕ → M ℕ
or_placeholder kind unresolved name (some id) = pure id
or_placeholder kind unresolved name none = do report (unresolved name); new_def kind false name

unfoldable pub resolve_or_report : DefKind → (Ident → Diagnostic) → Ident → M ℕ
resolve_or_report kind unresolved name = do
  found ← resolve name.name
  or_placeholder kind unresolved name found

unfoldable pub lower_params : List Param → M (List HirParam)
unfolding bind_local lower_type_expr
lower_params [] = pure []
lower_params (p ∷ ps) = do
  id ← bind_local DefKind.parameter false p.name
  params ← lower_params ps
  pure (record { def_id = id; type_ann = lower_type_option p.type_ann; span = p.span } ∷ params)

unfoldable pub lower_rest : Option Ident → M (Option ℕ)
unfolding bind_local
lower_rest none = pure none
lower_rest (some name) = do id ← bind_local DefKind.local_binding false name; pure (some id)

unfoldable mutual
  unfolding bind_local resolve_or_report lower_rest

  pub lower_pattern : Pattern → M HirPattern
  lower_pattern (Pattern.wildcard span) = pure (HirPattern.wildcard span)
  lower_pattern (Pattern.variable name) = do
    id ← bind_local DefKind.local_binding false name
    pure (HirPattern.variable id name.span)
  lower_pattern (Pattern.literal l) = pure (HirPattern.literal (lower_literal l))
  lower_pattern (Pattern.constructor name fields span) = do
    hir_fields ← lower_patterns fields
    id ← resolve_or_report DefKind.constructor unresolved_constructor name
    pure (HirPattern.constructor id hir_fields span)
  lower_pattern (Pattern.list elements rest span) = do
    hir_elements ← lower_patterns elements
    hir_rest ← lower_rest rest
    pure (HirPattern.list hir_elements hir_rest span)

  pub lower_patterns : Patterns → M HirPatterns
  lower_patterns Patterns.no_pattern = pure HirPatterns.no_pattern
  lower_patterns (Patterns.then_pattern p ps) = do
    hir ← lower_pattern p
    rest ← lower_patterns ps
    pure (HirPatterns.then_pattern hir rest)

-- `string_concat(lhs, rhs)`
abbrev pub concat_call : HirExpr → HirExpr → Span → M HirExpr
concat_call lhs rhs span c =
    pure
      (HirExpr.call (HirExpr.var c.string_concat_id span)
        (HirExprs.then_expr lhs (HirExprs.then_expr rhs HirExprs.no_expr)) span)
      c

-- `x |> f(y)` becomes `f(x, y)`, and `x |> f` becomes `f(x)`.
abbrev pub pipe_into : HirExpr → HirExpr → Span → HirExpr
pipe_into left (HirExpr.call func args _) span =
    HirExpr.call func (HirExprs.then_expr left args) span
pipe_into left other span = HirExpr.call other (HirExprs.then_expr left HirExprs.no_expr) span

abbrev pub binary_op : BinOp → HirExpr → HirExpr → Span → M HirExpr
binary_op string_concat lhs rhs span = concat_call lhs rhs span
binary_op op lhs rhs span = pure (HirExpr.binary_op op lhs rhs span)

abbrev pub unresolved_variable : Ident → Diagnostic
unresolved_variable name = with_label name.span "not found in this scope" (unresolved_name name)

unfoldable mutual
  unfolding bind_local resolve_or_report lower_params lower_pattern lower_type_expr

  pub lower_expr : Expr → M HirExpr
  lower_expr (Expr.literal l) = pure (HirExpr.literal (lower_literal l))
  lower_expr (Expr.variable name) = do
    id ← resolve_or_report DefKind.local_binding unresolved_variable name
    pure (HirExpr.var id name.span)
  lower_expr (Expr.block exprs span) = do
    push
    hir ← lower_exprs exprs
    pop
    pure (HirExpr.block hir span)
  lower_expr (Expr.call func args span) = do
    hir_func ← lower_expr func
    hir_args ← lower_exprs args
    pure (HirExpr.call hir_func hir_args span)
  lower_expr (Expr.binary_op op lhs rhs span) = do
    hir_lhs ← lower_expr lhs
    hir_rhs ← lower_expr rhs
    binary_op op hir_lhs hir_rhs span
  lower_expr (Expr.unary_op op e span) = do hir ← lower_expr e; pure (HirExpr.unary_op op hir span)
  lower_expr (Expr.if_expr condition then_body else_body span) = do
    hir_cond ← lower_expr condition
    hir_then ← lower_expr then_body
    hir_else ← lower_option else_body
    pure (HirExpr.if_expr hir_cond hir_then hir_else span)
  lower_expr (Expr.match_expr subject arms span) = do
    hir_subject ← lower_expr subject
    hir_arms ← lower_arms arms
    pure (HirExpr.match_expr hir_subject hir_arms span)
  lower_expr (Expr.pipeline left right span) = do
    hir_left ← lower_expr left
    hir_right ← lower_expr right
    pure (pipe_into hir_left hir_right span)
  lower_expr (Expr.let_expr name value is_mutable span) = do
    id ← bind_local DefKind.local_binding is_mutable name
    hir ← lower_expr value
    pure (HirExpr.let_expr id hir is_mutable span)
  lower_expr (Expr.assign target value span) = do
    id ← resolve_or_report DefKind.local_binding unresolved_name target
    hir ← lower_expr value
    pure (HirExpr.assign id hir target.span span)
  lower_expr (Expr.lambda params return_type body span) = do
    push
    hir_params ← lower_params params
    hir_body ← lower_expr body
    pop
    pure (HirExpr.lambda hir_params (lower_type_option return_type) hir_body span)
  lower_expr (Expr.field_access receiver field span) = do
    hir ← lower_expr receiver
    pure (HirExpr.field_access hir field.name span)
  lower_expr (Expr.try_expr e span) = do hir ← lower_expr e; pure (HirExpr.try_expr hir span)
  lower_expr (Expr.await_expr e span) = do hir ← lower_expr e; pure (HirExpr.await_expr hir span)
  lower_expr (Expr.list elements span) = do hir ← lower_exprs elements; pure (HirExpr.list hir span)

  pub lower_exprs : Exprs → M HirExprs
  lower_exprs Exprs.no_expr = pure HirExprs.no_expr
  lower_exprs (Exprs.then_expr e es) = do
    hir ← lower_expr e
    rest ← lower_exprs es
    pure (HirExprs.then_expr hir rest)

  pub lower_option : ExprOption → M HirExprOption
  lower_option ExprOption.absent = pure HirExprOption.absent
  lower_option (ExprOption.present e) = do hir ← lower_expr e; pure (HirExprOption.present hir)

  -- `lower_match_arm` on each arm
  pub lower_arms : MatchArms → M HirMatchArms
  lower_arms MatchArms.no_arm = pure HirMatchArms.no_arm
  lower_arms (MatchArms.then_arm pattern guard body span arms) = do
    push
    hir_pattern ← lower_pattern pattern
    hir_guard ← lower_option guard
    hir_body ← lower_expr body
    pop
    hir_arms ← lower_arms arms
    pure (HirMatchArms.then_arm hir_pattern hir_guard hir_body span hir_arms)
