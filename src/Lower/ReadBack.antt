-- ===== src/Lower/ReadBack.antt =====
-- The syntax that a lowered expression stands for: each identifier is read in the arena, and is
-- none when the arena has no such entry.
use asatsuyu.Base.{
  ℕ, Option, none, some, List, [], ◌∷◌, String, get_elem?, ◌>>=◌, ◌≡◌, ap, Option-cases, inl, inr,
}
use asatsuyu.Syntax.Span.{dummy}
use asatsuyu.Hir.{
  DefData, HirTypeExpr, HirTypeExprs, HirLiteral, HirParam, HirPattern, HirPatterns, HirExpr,
  HirExprs, HirExprOption, HirMatchArms,
}
use asatsuyu.Ast.{
  Ident, Literal, TypeExpr, TypeExprs, Param, Pattern, Patterns, Expr, Exprs, ExprOption, MatchArms,
}

-- The name and the place of a definition.
abbrev pub name_at : List DefData → ℕ → Option String
name_at t id = elim (get_elem? t id) [ some d ↦ some d.name | none ↦ none ]

abbrev pub ident_at : List DefData → ℕ → Option Ident
ident_at t id = elim (get_elem? t id) [
  | some d ↦ some (record { name = d.name; span = d.span })
  | none ↦ none
]

pub name-ident :
    (t : List DefData) (id : ℕ) (name : Ident)
    → ident_at t id ≡ some name
    → name_at t id ≡ some name.name
name-ident t id name h = elim (Option-cases (get_elem? t id)) [
  | inl e ↦ absurd (cc (rw (e, ident_at) at h))
  | inr (d, e) ↦
      let same : (record { name = d.name; span = d.span }) ≡ name = cc (rw (e, ident_at) at h) in
      rw (e, name_at) (ap (λ (i : Ident). some i.name) same)
]

unfoldable mutual
  pub read_type : HirTypeExpr → TypeExpr
  read_type (HirTypeExpr.type_expr name args span) =
      TypeExpr.named (record { name = name; span = dummy }) (read_types args) span

  pub read_types : HirTypeExprs → TypeExprs
  read_types HirTypeExprs.no_type = TypeExprs.no_type
  read_types (HirTypeExprs.then_type t ts) = TypeExprs.then_type (read_type t) (read_types ts)

abbrev pub read_type_option : Option HirTypeExpr → Option TypeExpr
read_type_option none = none
read_type_option (some t) = some (read_type t)

abbrev pub read_literal : HirLiteral → Literal
read_literal l = record { kind = l.kind; value = l.value; span = l.span }

module _ (t : List DefData) where
  unfoldable pub read_params : List HirParam → Option (List Param)
  unfolding read_type
  read_params [] = some []
  read_params (p ∷ ps) = do
    name ← ident_at t p.def_id
    params ← read_params ps
    some (record { name = name; type_ann = read_type_option p.type_ann; span = p.span } ∷ params)

  abbrev pub read_rest : Option ℕ → Option (Option Ident)
  read_rest none = some none
  read_rest (some id) = do name ← ident_at t id; some (some name)

  unfoldable mutual
    pub read_pattern : HirPattern → Option Pattern
    read_pattern (HirPattern.wildcard span) = some (Pattern.wildcard span)
    read_pattern (HirPattern.variable id span) = do
      name ← name_at t id
      some (Pattern.variable (record { name = name; span = span }))
    read_pattern (HirPattern.literal l) = some (Pattern.literal (read_literal l))
    read_pattern (HirPattern.constructor id fields span) = do
      name ← name_at t id
      patterns ← read_patterns fields
      some (Pattern.constructor (record { name = name; span = dummy }) patterns span)
    read_pattern (HirPattern.list elements rest span) = do
      patterns ← read_patterns elements
      name ← read_rest rest
      some (Pattern.list patterns name span)

    pub read_patterns : HirPatterns → Option Patterns
    read_patterns HirPatterns.no_pattern = some Patterns.no_pattern
    read_patterns (HirPatterns.then_pattern p ps) = do
      pattern ← read_pattern p
      patterns ← read_patterns ps
      some (Patterns.then_pattern pattern patterns)

  unfoldable mutual
    unfolding read_type read_params read_pattern

    pub read_expr : HirExpr → Option Expr
    read_expr (HirExpr.literal l) = some (Expr.literal (read_literal l))
    read_expr (HirExpr.var id span) = do
      name ← name_at t id
      some (Expr.variable (record { name = name; span = span }))
    read_expr (HirExpr.block exprs span) = do es ← read_exprs exprs; some (Expr.block es span)
    read_expr (HirExpr.call func args span) = do
      f ← read_expr func
      es ← read_exprs args
      some (Expr.call f es span)
    read_expr (HirExpr.binary_op op lhs rhs span) = do
      l ← read_expr lhs
      r ← read_expr rhs
      some (Expr.binary_op op l r span)
    read_expr (HirExpr.unary_op op expr span) = do
      e ← read_expr expr
      some (Expr.unary_op op e span)
    read_expr (HirExpr.if_expr condition then_body else_body span) = do
      c ← read_expr condition
      yes_body ← read_expr then_body
      no_body ← read_option else_body
      some (Expr.if_expr c yes_body no_body span)
    read_expr (HirExpr.match_expr subject arms span) = do
      s ← read_expr subject
      as_read ← read_arms arms
      some (Expr.match_expr s as_read span)
    read_expr (HirExpr.let_expr id value is_mutable span) = do
      name ← ident_at t id
      e ← read_expr value
      some (Expr.let_expr name e is_mutable span)
    read_expr (HirExpr.assign id value target_span span) = do
      name ← name_at t id
      e ← read_expr value
      some (Expr.assign (record { name = name; span = target_span }) e span)
    read_expr (HirExpr.lambda params return_type body span) = do
      ps ← read_params params
      e ← read_expr body
      some (Expr.lambda ps (read_type_option return_type) e span)
    read_expr (HirExpr.field_access receiver field span) = do
      e ← read_expr receiver
      some (Expr.field_access e (record { name = field; span = dummy }) span)
    read_expr (HirExpr.try_expr expr span) = do e ← read_expr expr; some (Expr.try_expr e span)
    read_expr (HirExpr.await_expr expr span) = do e ← read_expr expr; some (Expr.await_expr e span)
    read_expr (HirExpr.list elements span) = do es ← read_exprs elements; some (Expr.list es span)

    pub read_exprs : HirExprs → Option Exprs
    read_exprs HirExprs.no_expr = some Exprs.no_expr
    read_exprs (HirExprs.then_expr expr exprs) = do
      e ← read_expr expr
      es ← read_exprs exprs
      some (Exprs.then_expr e es)

    pub read_option : HirExprOption → Option ExprOption
    read_option HirExprOption.absent = some ExprOption.absent
    read_option (HirExprOption.present expr) = do e ← read_expr expr; some (ExprOption.present e)

    pub read_arms : HirMatchArms → Option MatchArms
    read_arms HirMatchArms.no_arm = some MatchArms.no_arm
    read_arms (HirMatchArms.then_arm pattern guard body span arms) = do
      p ← read_pattern pattern
      g ← read_option guard
      e ← read_expr body
      rest ← read_arms arms
      some (MatchArms.then_arm p g e span rest)
