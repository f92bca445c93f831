-- ===== src/Lower/Trace/Expressions.antt =====
-- Expressions of lower.rs read back as the desugared expressions that they were lowered from.
use asatsuyu.Base.{refl, List}
use asatsuyu.Hir.{DefKind, HirExpr, HirMatchArms}
use asatsuyu.Ast.{Expr, Exprs, ExprOption, MatchArms}
use asatsuyu.Lower.Context.{Scope, LowerCtx}
use asatsuyu.Lower.Exprs.{
  lower_expr, lower_exprs, lower_option, lower_arms, unresolved_name, unresolved_variable,
  lower_type_option,
}
use asatsuyu.Lower.Desugar.{plain_expr, plain_exprs, plain_option, plain_arms}
use asatsuyu.Lower.ReadBack.{read_expr, read_exprs, read_option, read_arms}
use asatsuyu.Lower.Trace.{Ready, Kept-here, Good, returns, seq, Later-Kept}
use asatsuyu.Lower.Trace.Bindings.{bind_local-Good, resolve_or_report-Good, push-Good, pop-Good}
use asatsuyu.Lower.Trace.Patterns.{
  Reads, lower_params-Good, lower_pattern-Good, read-lower_type_option,
}
use asatsuyu.Lower.Trace.Calls.{read-pipe_into, binary_op-Good}

mutual
  unfolding lower_expr read_expr plain_expr

  pub lower_expr-Good :
      (x : Expr) (c : LowerCtx) (outer : List Scope)
      → Ready outer c
      → Good c outer (Reads read_expr (plain_expr x)) (lower_expr x c)
  lower_expr-Good (Expr.literal l) c outer r = returns (Kept-here r) (λ t e. refl)
  lower_expr-Good (Expr.variable name) c outer r =
      seq (resolve_or_report-Good DefKind.local_binding unresolved_variable name c outer r)
        (λ id q k n. returns (Kept-here k.ready) (λ t e. rw (n t e) refl))
  lower_expr-Good (Expr.block exprs span) c outer r = seq (push-Good c outer r) (λ _ q1 k1 _.
      seq (lower_exprs-Good exprs q1 c.scopes k1.ready) (λ hs q2 k2 h.
        seq (pop-Good c outer r q2 k2.ready) (λ _ q3 k3 _.
          returns {x = HirExpr.block hs span} (Kept-here k3.ready)
            (λ t e. rw (Later-Kept k3 h t e) refl))))
  lower_expr-Good (Expr.call func args span) c outer r =
      seq (lower_expr-Good func c outer r) (λ hf q1 k1 h1.
        seq (lower_exprs-Good args q1 outer k1.ready) (λ ha q2 k2 h2.
          returns (Kept-here k2.ready) (λ t e. rw (Later-Kept k2 h1 t e, h2 t e) refl)))
  lower_expr-Good (Expr.binary_op op lhs rhs span) c outer r =
      seq (lower_expr-Good lhs c outer r) (λ hl q1 k1 h1.
        seq (lower_expr-Good rhs q1 outer k1.ready) (λ hr q2 k2 h2.
          binary_op-Good hl hr (plain_expr lhs) (plain_expr rhs) span q2 outer k2.ready
            (Later-Kept k2 h1) h2 op))
  lower_expr-Good (Expr.unary_op op x span) c outer r =
      seq (lower_expr-Good x c outer r)
        (λ hx q k h. returns (Kept-here k.ready) (λ t e. rw (h t e) refl))
  lower_expr-Good (Expr.if_expr condition then_body else_body span) c outer r =
      seq (lower_expr-Good condition c outer r) (λ hc q1 k1 h1.
        seq (lower_expr-Good then_body q1 outer k1.ready) (λ ht q2 k2 h2.
          seq (lower_option-Good else_body q2 outer k2.ready) (λ he q3 k3 h3.
            returns (Kept-here k3.ready) (λ t e.
              rw (Later-Kept k3 (Later-Kept k2 h1) t e, Later-Kept k3 h2 t e, h3 t e) refl))))
  lower_expr-Good (Expr.match_expr subject arms span) c outer r =
      seq (lower_expr-Good subject c outer r) (λ hs q1 k1 h1.
        seq (lower_arms-Good arms q1 outer k1.ready) (λ ha q2 k2 h2.
          returns (Kept-here k2.ready) (λ t e. rw (Later-Kept k2 h1 t e, h2 t e) refl)))
  lower_expr-Good (Expr.pipeline left right span) c outer r =
      seq (lower_expr-Good left c outer r) (λ hl q1 k1 h1.
        seq (lower_expr-Good right q1 outer k1.ready) (λ hr q2 k2 h2.
          returns (Kept-here k2.ready) (λ t e.
            read-pipe_into t hl (plain_expr left) span (Later-Kept k2 h1 t e) hr (plain_expr right)
              (h2 t e))))
  lower_expr-Good (Expr.let_expr name value is_mutable span) c outer r =
      seq (bind_local-Good DefKind.local_binding c outer r is_mutable name) (λ id q1 k1 n.
        seq (lower_expr-Good value q1 outer k1.ready) (λ hv q2 k2 h.
          returns (Kept-here k2.ready) (λ t e. rw (Later-Kept k2 n t e, h t e) refl)))
  lower_expr-Good (Expr.assign target value span) c outer r =
      seq (resolve_or_report-Good DefKind.local_binding unresolved_name target c outer r)
        (λ id q1 k1 n. seq (lower_expr-Good value q1 outer k1.ready) (λ hv q2 k2 h.
          returns (Kept-here k2.ready) (λ t e. rw (Later-Kept k2 n t e, h t e) refl)))
  lower_expr-Good (Expr.lambda params return_type body span) c outer r =
      seq (push-Good c outer r) (λ _ q1 k1 _.
        seq (lower_params-Good params q1 c.scopes k1.ready) (λ hp q2 k2 h2.
          seq (lower_expr-Good body q2 c.scopes k2.ready) (λ hb q3 k3 h3.
            seq (pop-Good c outer r q3 k3.ready) (λ _ q4 k4 _.
              returns {x = HirExpr.lambda hp (lower_type_option return_type) hb span}
                (Kept-here k4.ready)
                (λ t e.
                  rw
                    (
                      Later-Kept k4 (Later-Kept k3 h2) t e,
                      Later-Kept k4 h3 t e,
                      read-lower_type_option return_type,
                    )
                    refl)))))
  lower_expr-Good (Expr.field_access receiver field span) c outer r =
      seq (lower_expr-Good receiver c outer r)
        (λ hx q k h. returns (Kept-here k.ready) (λ t e. rw (h t e) refl))
  lower_expr-Good (Expr.try_expr x span) c outer r =
      seq (lower_expr-Good x c outer r)
        (λ hx q k h. returns (Kept-here k.ready) (λ t e. rw (h t e) refl))
  lower_expr-Good (Expr.await_expr x span) c outer r =
      seq (lower_expr-Good x c outer r)
        (λ hx q k h. returns (Kept-here k.ready) (λ t e. rw (h t e) refl))
  lower_expr-Good (Expr.list elements span) c outer r =
      seq (lower_exprs-Good elements c outer r)
        (λ hx q k h. returns (Kept-here k.ready) (λ t e. rw (h t e) refl))

  lower_exprs-Good :
      (xs : Exprs) (c : LowerCtx) (outer : List Scope)
      → Ready outer c
      → Good c outer (Reads read_exprs (plain_exprs xs)) (lower_exprs xs c)
  lower_exprs-Good Exprs.no_expr c outer r = returns (Kept-here r) (λ t e. refl)
  lower_exprs-Good (Exprs.then_expr x xs) c outer r =
      seq (lower_expr-Good x c outer r) (λ hx q1 k1 h1.
        seq (lower_exprs-Good xs q1 outer k1.ready) (λ hs q2 k2 h2.
          returns (Kept-here k2.ready) (λ t e. rw (Later-Kept k2 h1 t e, h2 t e) refl)))

  lower_option-Good :
      (x : ExprOption) (c : LowerCtx) (outer : List Scope)
      → Ready outer c
      → Good c outer (Reads read_option (plain_option x)) (lower_option x c)
  lower_option-Good ExprOption.absent c outer r = returns (Kept-here r) (λ t e. refl)
  lower_option-Good (ExprOption.present x) c outer r =
      seq (lower_expr-Good x c outer r)
        (λ hx q k h. returns (Kept-here k.ready) (λ t e. rw (h t e) refl))

  lower_arms-Good :
      (arms : MatchArms) (c : LowerCtx) (outer : List Scope)
      → Ready outer c
      → Good c outer (Reads read_arms (plain_arms arms)) (lower_arms arms c)
  lower_arms-Good MatchArms.no_arm c outer r = returns (Kept-here r) (λ t e. refl)
  lower_arms-Good (MatchArms.then_arm pattern guard body span arms) c outer r =
      seq (push-Good c outer r) (λ _ q1 k1 _.
        seq (lower_pattern-Good pattern q1 c.scopes k1.ready) (λ hp q2 k2 h2.
          seq (lower_option-Good guard q2 c.scopes k2.ready) (λ hg q3 k3 h3.
            seq (lower_expr-Good body q3 c.scopes k3.ready) (λ hb q4 k4 h4.
              seq (pop-Good c outer r q4 k4.ready) (λ _ q5 k5 _.
                seq (lower_arms-Good arms q5 outer k5.ready) (λ hs q6 k6 h6.
                  returns {x = HirMatchArms.then_arm hp hg hb span hs} (Kept-here k6.ready) (λ t e.
                    let pattern_then =
                      Later-Kept k6 (Later-Kept k5 (Later-Kept k4 (Later-Kept k3 h2))) t e in
                    let guard_then = Later-Kept k6 (Later-Kept k5 (Later-Kept k4 h3)) t e in
                    let body_then = Later-Kept k6 (Later-Kept k5 h4) t e in
                    rw (pattern_then, guard_then, body_then, h6 t e) refl)))))))
