-- ===== src/Lower/Tells/Expressions.antt =====
-- Parameters, patterns and expressions of lower.rs report the issues of lexical scoping.
use asatsuyu.Base.{◌≡◌, refl, false, Option, none, some, List, [], ◌∷◌, String}
use asatsuyu.Syntax.Diagnostic.{DiagnosticCode}
use asatsuyu.Hir.{DefKind, BinOp, string_concat, HirExpr, HirMatchArms}
use asatsuyu.Ast.{Ident, Param, Pattern, Patterns, Expr, Exprs, ExprOption, MatchArms}
use asatsuyu.Syntax.Span.{Span}
use asatsuyu.Lower.Context.{LowerCtx}
use asatsuyu.Lower.Exprs.{
  lower_params, lower_rest, lower_pattern, lower_patterns, lower_expr, lower_exprs, lower_option,
  lower_arms, binary_op, lower_type_option, unresolved_name, unresolved_variable,
  unresolved_constructor,
}
use asatsuyu.Lower.Scoping.{
  params_names, params_issues, rest_names, rest_issues, pattern_names, patterns_names,
  pattern_issues, patterns_issues, expr_names, exprs_names, option_names, expr_issues, exprs_issues,
  option_issues, arms_issues,
}
use asatsuyu.Lower.Tells.{all_keys, Tells, and_then, and_last, returned}
use asatsuyu.Lower.Tells.Steps.{
  pushed, pushed-keys, pop-Tells, pop-last, bind_local-Tells, resolve-Tells,
}

pub lower_params-Tells :
    (ps : List Param) (c : LowerCtx) (here : List String) (env : List (List String))
    → (all_keys c.scopes ≡ here ∷ env)
    → Tells c.diagnostics (params_names ps here ∷ env) (params_issues ps here) (lower_params ps c)
unfolding lower_params params_names params_issues
lower_params-Tells [] c here env e = returned e
lower_params-Tells (p ∷ ps) c here env e =
    and_then (bind_local-Tells DefKind.parameter p.name c here env e false) (λ id q s.
      and_last (lower_params-Tells ps q (p.name.name ∷ here) env s) (λ hs q2 s2. returned s2))

lower_rest-Tells :
    (rest : Option Ident) (c : LowerCtx) (here : List String) (env : List (List String))
    → (all_keys c.scopes ≡ here ∷ env)
    → Tells c.diagnostics (rest_names rest here ∷ env) (rest_issues rest here) (lower_rest rest c)
unfolding lower_rest
lower_rest-Tells none c here env e = returned e
lower_rest-Tells (some name) c here env e =
    and_last (bind_local-Tells DefKind.local_binding name c here env e false) (λ id q s. returned s)

mutual
  unfolding lower_pattern pattern_names pattern_issues

  pub lower_pattern-Tells :
      (p : Pattern) (c : LowerCtx) (here : List String) (env : List (List String))
      → (all_keys c.scopes ≡ here ∷ env)
      → Tells c.diagnostics
          (pattern_names p here ∷ env)
          (pattern_issues env p here)
          (lower_pattern p c)
  lower_pattern-Tells (Pattern.wildcard span) c here env e = returned e
  lower_pattern-Tells (Pattern.variable name) c here env e =
      and_last (bind_local-Tells DefKind.local_binding name c here env e false)
        (λ id q s. returned s)
  lower_pattern-Tells (Pattern.literal l) c here env e = returned e
  lower_pattern-Tells (Pattern.constructor name fields span) c here env e =
      and_then (lower_patterns-Tells fields c here env e) (λ hs q s.
        and_last
          (resolve-Tells DefKind.constructor DiagnosticCode.e0153 "unresolved constructor "
            unresolved_constructor name refl q (patterns_names fields here ∷ env) s)
          (λ id q2 s2. returned s2))
  lower_pattern-Tells (Pattern.list elements rest span) c here env e =
      and_then (lower_patterns-Tells elements c here env e) (λ hs q s.
        and_last (lower_rest-Tells rest q (patterns_names elements here) env s)
          (λ id q2 s2. returned s2))

  lower_patterns-Tells :
      (ps : Patterns) (c : LowerCtx) (here : List String) (env : List (List String))
      → (all_keys c.scopes ≡ here ∷ env)
      → Tells c.diagnostics
          (patterns_names ps here ∷ env)
          (patterns_issues env ps here)
          (lower_patterns ps c)
  lower_patterns-Tells Patterns.no_pattern c here env e = returned e
  lower_patterns-Tells (Patterns.then_pattern p ps) c here env e =
      and_then (lower_pattern-Tells p c here env e) (λ hp q s.
        and_last (lower_patterns-Tells ps q (pattern_names p here) env s) (λ hs q2 s2. returned s2))

binary_op-Tells :
    (op : BinOp) (l r : HirExpr) (span : Span) (c : LowerCtx) (env : List (List String))
    → (all_keys c.scopes ≡ env)
    → Tells c.diagnostics env [] (binary_op op l r span c)
binary_op-Tells string_concat l r span c env e = returned e
binary_op-Tells BinOp.add l r span c env e = returned e
binary_op-Tells _ l r span c env e = returned e

mutual
  unfolding lower_expr expr_names expr_issues

  pub lower_expr-Tells :
      (x : Expr) (c : LowerCtx) (here : List String) (env : List (List String))
      → (all_keys c.scopes ≡ here ∷ env)
      → Tells c.diagnostics (expr_names x here ∷ env) (expr_issues x here env) (lower_expr x c)
  lower_expr-Tells (Expr.literal l) c here env e = returned e
  lower_expr-Tells (Expr.variable name) c here env e =
      and_last
        (resolve-Tells DefKind.local_binding DiagnosticCode.e0152 "unresolved name "
          unresolved_variable name refl c (here ∷ env) e)
        (λ id q s. returned s)
  lower_expr-Tells (Expr.block exprs span) c here env e =
      and_last (lower_exprs-Tells exprs (pushed c) [] (here ∷ env) (pushed-keys c (here ∷ env) e))
        (λ hs q s. pop-last (HirExpr.block hs span) q (exprs_names exprs []) (here ∷ env) s)
  lower_expr-Tells (Expr.call func args span) c here env e =
      and_then (lower_expr-Tells func c here env e) (λ hf q s.
        and_last (lower_exprs-Tells args q (expr_names func here) env s) (λ ha q2 s2. returned s2))
  lower_expr-Tells (Expr.binary_op op lhs rhs span) c here env e =
      and_then (lower_expr-Tells lhs c here env e) (λ hl q s.
        and_last (lower_expr-Tells rhs q (expr_names lhs here) env s) (λ hr q2 s2.
          binary_op-Tells op hl hr span q2 (expr_names rhs (expr_names lhs here) ∷ env) s2))
  lower_expr-Tells (Expr.unary_op op x span) c here env e =
      and_last (lower_expr-Tells x c here env e) (λ h q s. returned s)
  lower_expr-Tells (Expr.if_expr condition then_body else_body span) c here env e =
      and_then (lower_expr-Tells condition c here env e) (λ hc q s.
        and_then (lower_expr-Tells then_body q (expr_names condition here) env s) (λ ht q2 s2.
          and_last
            (lower_option-Tells else_body q2 (expr_names then_body (expr_names condition here)) env
              s2)
            (λ he q3 s3. returned s3)))
  lower_expr-Tells (Expr.match_expr subject arms span) c here env e =
      and_then (lower_expr-Tells subject c here env e) (λ hs q s.
        and_last (lower_arms-Tells arms q (expr_names subject here) env s)
          (λ ha q2 s2. returned s2))
  lower_expr-Tells (Expr.pipeline left right span) c here env e =
      and_then (lower_expr-Tells left c here env e) (λ hl q s.
        and_last (lower_expr-Tells right q (expr_names left here) env s) (λ hr q2 s2. returned s2))
  lower_expr-Tells (Expr.let_expr name value is_mutable span) c here env e =
      and_then (bind_local-Tells DefKind.local_binding name c here env e is_mutable) (λ id q s.
        and_last (lower_expr-Tells value q (name.name ∷ here) env s) (λ h q2 s2. returned s2))
  lower_expr-Tells (Expr.assign target value span) c here env e =
      and_then
        (resolve-Tells DefKind.local_binding DiagnosticCode.e0152 "unresolved name " unresolved_name
          target refl c (here ∷ env) e)
        (λ id q s. and_last (lower_expr-Tells value q here env s) (λ h q2 s2. returned s2))
  lower_expr-Tells (Expr.lambda params return_type body span) c here env e =
      and_then (lower_params-Tells params (pushed c) [] (here ∷ env) (pushed-keys c (here ∷ env) e))
        (λ hp q s.
          and_last (lower_expr-Tells body q (params_names params []) (here ∷ env) s) (λ hb q2 s2.
            pop-last (HirExpr.lambda hp (lower_type_option return_type) hb span) q2
              (expr_names body (params_names params [])) (here ∷ env) s2))
  lower_expr-Tells (Expr.field_access receiver field span) c here env e =
      and_last (lower_expr-Tells receiver c here env e) (λ h q s. returned s)
  lower_expr-Tells (Expr.try_expr x span) c here env e =
      and_last (lower_expr-Tells x c here env e) (λ h q s. returned s)
  lower_expr-Tells (Expr.await_expr x span) c here env e =
      and_last (lower_expr-Tells x c here env e) (λ h q s. returned s)
  lower_expr-Tells (Expr.list elements span) c here env e =
      and_last (lower_exprs-Tells elements c here env e) (λ h q s. returned s)

  lower_exprs-Tells :
      (xs : Exprs) (c : LowerCtx) (here : List String) (env : List (List String))
      → (all_keys c.scopes ≡ here ∷ env)
      → Tells c.diagnostics
          (exprs_names xs here ∷ env)
          (exprs_issues xs here env)
          (lower_exprs xs c)
  lower_exprs-Tells Exprs.no_expr c here env e = returned e
  lower_exprs-Tells (Exprs.then_expr x xs) c here env e =
      and_then (lower_expr-Tells x c here env e) (λ h q s.
        and_last (lower_exprs-Tells xs q (expr_names x here) env s) (λ hs q2 s2. returned s2))

  lower_option-Tells :
      (x : ExprOption) (c : LowerCtx) (here : List String) (env : List (List String))
      → (all_keys c.scopes ≡ here ∷ env)
      → Tells c.diagnostics
          (option_names x here ∷ env)
          (option_issues x here env)
          (lower_option x c)
  lower_option-Tells ExprOption.absent c here env e = returned e
  lower_option-Tells (ExprOption.present x) c here env e =
      and_last (lower_expr-Tells x c here env e) (λ h q s. returned s)

  lower_arms-Tells :
      (arms : MatchArms) (c : LowerCtx) (here : List String) (env : List (List String))
      → (all_keys c.scopes ≡ here ∷ env)
      → Tells c.diagnostics (here ∷ env) (arms_issues arms (here ∷ env)) (lower_arms arms c)
  lower_arms-Tells MatchArms.no_arm c here env e = returned e
  lower_arms-Tells (MatchArms.then_arm pattern guard body span arms) c here env e =
      and_then
        (lower_pattern-Tells pattern (pushed c) [] (here ∷ env) (pushed-keys c (here ∷ env) e))
        (λ hp q2 s2.
          and_then (lower_option-Tells guard q2 (pattern_names pattern []) (here ∷ env) s2)
            (λ hg q3 s3.
              let guarded = option_names guard (pattern_names pattern []) in
              and_then (lower_expr-Tells body q3 guarded (here ∷ env) s3) (λ hb q4 s4.
                and_then (pop-Tells q4 (expr_names body guarded) (here ∷ env) s4) (λ _ q5 s5.
                  and_last (lower_arms-Tells arms q5 here env s5)
                    (λ hs q6 s6. returned {x = HirMatchArms.then_arm hp hg hb span hs} s6)))))
