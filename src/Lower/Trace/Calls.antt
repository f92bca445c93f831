-- ===== src/Lower/Trace/Calls.antt =====
-- The calls that lower.rs makes of operators and pipelines read back as the calls that the desugared
-- syntax has.
use asatsuyu.Base.{◌≡◌, refl, some, List, arith}
use asatsuyu.Syntax.Span.{Span}
use asatsuyu.Hir.{BinOp, string_concat, DefData, HirExpr}
use asatsuyu.Ast.{Expr}
use asatsuyu.Lower.Context.{Scope, LowerCtx}
use asatsuyu.Lower.Exprs.{pipe_into, binary_op}
use asatsuyu.Lower.Desugar.{pass_to, plain_operation}
use asatsuyu.Lower.ReadBack.{read_expr}
use asatsuyu.Lower.Trace.{Ready, Kept-here, Good, returns, name_at-Extends}
use asatsuyu.Lower.Trace.Patterns.{Reads}

module _ (t : List DefData) (left : HirExpr) (l : Expr) (span : Span)
    (hl : read_expr t left ≡ some l) where
  pub read-pipe_into :
      (right : HirExpr) (r : Expr)
      → read_expr t right ≡ some r
      → read_expr t (pipe_into left right span) ≡ some (pass_to l r span)
  unfolding read_expr
  read-pipe_into (HirExpr.unary_op op e s) r hr = ground (arith, hl, hr)
  read-pipe_into (HirExpr.call func args s) r hr = ground (arith, hl, hr)
  read-pipe_into (HirExpr.literal x) r hr = ground (arith, hl, hr)
  read-pipe_into (HirExpr.var id s) r hr = ground (arith, hl, hr)
  read-pipe_into (HirExpr.block es s) r hr = ground (arith, hl, hr)
  read-pipe_into (HirExpr.binary_op op a b s) r hr = ground (arith, hl, hr)
  read-pipe_into (HirExpr.if_expr a b d s) r hr = ground (arith, hl, hr)
  read-pipe_into (HirExpr.match_expr a b s) r hr = ground (arith, hl, hr)
  read-pipe_into (HirExpr.let_expr a b d s) r hr = ground (arith, hl, hr)
  read-pipe_into (HirExpr.assign a b d s) r hr = ground (arith, hl, hr)
  read-pipe_into (HirExpr.lambda a b d s) r hr = ground (arith, hl, hr)
  read-pipe_into (HirExpr.field_access a b s) r hr = ground (arith, hl, hr)
  read-pipe_into (HirExpr.try_expr a s) r hr = ground (arith, hl, hr)
  read-pipe_into (HirExpr.await_expr a s) r hr = ground (arith, hl, hr)
  read-pipe_into (HirExpr.list a s) r hr = ground (arith, hl, hr)

module _ (hl hr : HirExpr) (l r : Expr) (span : Span) (c : LowerCtx) (outer : List Scope)
    (ready : Ready outer c) (hl_lem : Reads read_expr l hl c)
    (hr_lem : Reads read_expr r hr c) where
  pub binary_op-Good :
      (op : BinOp)
      → Good c outer (Reads read_expr (plain_operation op l r span)) (binary_op op hl hr span c)
  unfolding read_expr
  binary_op-Good string_concat = returns (Kept-here ready) (λ t e.
      let concat =
        name_at-Extends c.symbol_table t e c.string_concat_id "string_concat" ready.concat in
      rw (concat, hl_lem t e, hr_lem t e) refl)
  binary_op-Good BinOp.add = returns (Kept-here ready) (λ t e. rw (hl_lem t e, hr_lem t e) refl)
  binary_op-Good _ = returns (Kept-here ready) (λ t e. rw (hl_lem t e, hr_lem t e) refl)
