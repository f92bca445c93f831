-- ===== src/Lower/Scoping.antt =====
-- Lexical scoping on names only: which names each construct adds to the innermost scope, `here`, and
-- which names are unresolved or bound twice. `outer` are the names of the scopes around it.
use text.Mathlib.Text.{◌==◌}
use asatsuyu.Base.{Bool, true, false, ◌||◌, Option, none, some, List, [], ◌∷◌, ◌++◌, String}
use asatsuyu.Syntax.Span.{Span}
use asatsuyu.Syntax.Diagnostic.{DiagnosticCode}
use asatsuyu.Ast.{Ident, Param, Pattern, Patterns, Expr, Exprs, ExprOption, MatchArms, FnDef}
use asatsuyu.Lower.Context.{quoted}

-- A code, a message and the place of a name.
abbrev pub Issue : Type 0
Issue = Option DiagnosticCode × String × Span

abbrev pub issue : DiagnosticCode → String → Ident → List Issue
issue code what name = (some code, quoted what name.name "", name.span) ∷ []

unfoldable pub has_name : String → List String → Bool
has_name name [] = false
has_name name (key ∷ keys) = (key == name) || has_name name keys

unfoldable pub in_scope : String → List (List String) → Bool
unfolding has_name
in_scope name [] = false
in_scope name (keys ∷ outer) = has_name name keys || in_scope name outer

-- An issue when the name is in the innermost scope, and when it is in no scope.
abbrev pub unless_new : DiagnosticCode → String → List String → Ident → List Issue
unless_new code what here name = elim (has_name name.name here) [
  | true ↦ issue code what name
  | false ↦ []
]

abbrev pub unless_known : DiagnosticCode → String → List (List String) → Ident → List Issue
unless_known code what env name = elim (in_scope name.name env) [
  | true ↦ []
  | false ↦ issue code what name
]

abbrev pub rebound : List String → Ident → List Issue
rebound = unless_new DiagnosticCode.e0150 "duplicate binding "

abbrev pub redefined : List String → Ident → List Issue
redefined = unless_new DiagnosticCode.e0151 "duplicate definition "

abbrev pub unresolved : List (List String) → Ident → List Issue
unresolved = unless_known DiagnosticCode.e0152 "unresolved name "

abbrev pub no_constructor : List (List String) → Ident → List Issue
no_constructor = unless_known DiagnosticCode.e0153 "unresolved constructor "

unfoldable pub params_names : List Param → List String → List String
params_names [] here = here
params_names (p ∷ ps) here = params_names ps (p.name.name ∷ here)

unfoldable pub params_issues : List Param → List String → List Issue
params_issues [] here = []
params_issues (p ∷ ps) here = rebound here p.name ++ params_issues ps (p.name.name ∷ here)

abbrev pub rest_names : Option Ident → List String → List String
rest_names none here = here
rest_names (some name) here = name.name ∷ here

abbrev pub rest_issues : Option Ident → List String → List Issue
rest_issues none here = []
rest_issues (some name) here = rebound here name

unfoldable mutual
  pub pattern_names : Pattern → List String → List String
  pattern_names (Pattern.variable name) here = name.name ∷ here
  pattern_names (Pattern.constructor name fields span) here = patterns_names fields here
  pattern_names (Pattern.list elements rest span) here =
      rest_names rest (patterns_names elements here)
  pattern_names (Pattern.wildcard span) here = here
  pattern_names (Pattern.literal l) here = here

  pub patterns_names : Patterns → List String → List String
  patterns_names Patterns.no_pattern here = here
  patterns_names (Patterns.then_pattern p ps) here = patterns_names ps (pattern_names p here)

module _ (outer : List (List String)) where
  unfoldable mutual
    unfolding pattern_names

    pub pattern_issues : Pattern → List String → List Issue
    pattern_issues (Pattern.variable name) here = rebound here name
    pattern_issues (Pattern.constructor name fields span) here =
        patterns_issues fields here ++ no_constructor (patterns_names fields here ∷ outer) name
    pattern_issues (Pattern.list elements rest span) here =
        patterns_issues elements here ++ rest_issues rest (patterns_names elements here)
    pattern_issues (Pattern.wildcard span) here = []
    pattern_issues (Pattern.literal l) here = []

    pub patterns_issues : Patterns → List String → List Issue
    patterns_issues Patterns.no_pattern here = []
    patterns_issues (Patterns.then_pattern p ps) here =
        pattern_issues p here ++ patterns_issues ps (pattern_names p here)

-- A `let` adds its name also where it stands inside another expression; blocks, functions and match
-- arms have scopes of their own.
unfoldable mutual
  pub expr_names : Expr → List String → List String
  expr_names (Expr.literal l) here = here
  expr_names (Expr.variable name) here = here
  expr_names (Expr.block exprs span) here = here
  expr_names (Expr.call func args span) here = exprs_names args (expr_names func here)
  expr_names (Expr.binary_op op lhs rhs span) here = expr_names rhs (expr_names lhs here)
  expr_names (Expr.unary_op op e span) here = expr_names e here
  expr_names (Expr.if_expr condition then_body else_body span) here =
      option_names else_body (expr_names then_body (expr_names condition here))
  expr_names (Expr.match_expr subject arms span) here = expr_names subject here
  expr_names (Expr.pipeline left right span) here = expr_names right (expr_names left here)
  expr_names (Expr.let_expr name value is_mutable span) here = expr_names value (name.name ∷ here)
  expr_names (Expr.assign target value span) here = expr_names value here
  expr_names (Expr.lambda params return_type body span) here = here
  expr_names (Expr.field_access receiver field span) here = expr_names receiver here
  expr_names (Expr.try_expr e span) here = expr_names e here
  expr_names (Expr.await_expr e span) here = expr_names e here
  expr_names (Expr.list elements span) here = exprs_names elements here

  pub exprs_names : Exprs → List String → List String
  exprs_names Exprs.no_expr here = here
  exprs_names (Exprs.then_expr e es) here = exprs_names es (expr_names e here)

  pub option_names : ExprOption → List String → List String
  option_names ExprOption.absent here = here
  option_names (ExprOption.present e) here = expr_names e here

unfoldable mutual
  unfolding expr_names pattern_names params_names

  pub expr_issues : Expr → List String → List (List String) → List Issue
  expr_issues (Expr.literal l) here outer = []
  expr_issues (Expr.variable name) here outer = unresolved (here ∷ outer) name
  expr_issues (Expr.block exprs span) here outer = exprs_issues exprs [] (here ∷ outer)
  expr_issues (Expr.call func args span) here outer =
      expr_issues func here outer ++ exprs_issues args (expr_names func here) outer
  expr_issues (Expr.binary_op op lhs rhs span) here outer =
      expr_issues lhs here outer ++ expr_issues rhs (expr_names lhs here) outer
  expr_issues (Expr.unary_op op e span) here outer = expr_issues e here outer
  expr_issues (Expr.if_expr condition then_body else_body span) here outer =
      let inner = expr_names condition here in
      expr_issues condition here outer
      ++ (expr_issues then_body inner outer
          ++ option_issues else_body (expr_names then_body inner) outer)
  expr_issues (Expr.match_expr subject arms span) here outer =
      expr_issues subject here outer ++ arms_issues arms (expr_names subject here ∷ outer)
  expr_issues (Expr.pipeline left right span) here outer =
      expr_issues left here outer ++ expr_issues right (expr_names left here) outer
  expr_issues (Expr.let_expr name value is_mutable span) here outer =
      rebound here name ++ expr_issues value (name.name ∷ here) outer
  expr_issues (Expr.assign target value span) here outer =
      unresolved (here ∷ outer) target ++ expr_issues value here outer
  expr_issues (Expr.lambda params return_type body span) here outer =
      params_issues params [] ++ expr_issues body (params_names params []) (here ∷ outer)
  expr_issues (Expr.field_access receiver field span) here outer = expr_issues receiver here outer
  expr_issues (Expr.try_expr e span) here outer = expr_issues e here outer
  expr_issues (Expr.await_expr e span) here outer = expr_issues e here outer
  expr_issues (Expr.list elements span) here outer = exprs_issues elements here outer

  pub exprs_issues : Exprs → List String → List (List String) → List Issue
  exprs_issues Exprs.no_expr here outer = []
  exprs_issues (Exprs.then_expr e es) here outer =
      expr_issues e here outer ++ exprs_issues es (expr_names e here) outer

  pub option_issues : ExprOption → List String → List (List String) → List Issue
  option_issues ExprOption.absent here outer = []
  option_issues (ExprOption.present e) here outer = expr_issues e here outer

  pub arms_issues : MatchArms → List (List String) → List Issue
  arms_issues MatchArms.no_arm env = []
  arms_issues (MatchArms.then_arm pattern guard body span arms) env =
      let bound = pattern_names pattern [] in
      pattern_issues env pattern []
      ++ (option_issues guard bound env
          ++ (expr_issues body (option_names guard bound) env ++ arms_issues arms env))

unfoldable pub fn_issues : FnDef → List (List String) → List Issue
unfolding params_names expr_issues
fn_issues f env = params_issues f.params [] ++ expr_issues f.body (params_names f.params []) env

unfoldable pub fns_issues : List FnDef → List (List String) → List Issue
unfolding fn_issues
fns_issues [] env = []
fns_issues (f ∷ fs) env = fn_issues f env ++ fns_issues fs env
