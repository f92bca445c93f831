-- ===== src/Lower/Entry.antt =====
-- asatsuyu/crates/asatsuyu-hir/src/lib.rs: `lower_to_hir`, which lowers a module and analyses it. The
-- diagnostics of the purity check are the values of Purity/Check, and stand in a field of their own.
use asatsuyu.Base.{Bool, true, false, ◌||◌, Option, some, List, [], ◌∷◌, any, ◌>>=◌}
use asatsuyu.Syntax.Diagnostic.{Diagnostic, Severity}
use asatsuyu.Hir.{HirModule}
use asatsuyu.Ast.{Module}
use asatsuyu.Purity.{FunctionPurity}
use asatsuyu.Purity.Propagate.{analyze}
use asatsuyu.Purity.Check.{PurityError, check}
use asatsuyu.Lower.Context.{LowerCtx, new_ctx}
use asatsuyu.Lower.Modules.{lower_module}

pub record HirLowerResult : Type 0 where
  pub hir : HirModule
  pub diagnostics : List Diagnostic
  pub purity_errors : List PurityError
  pub purity : List FunctionPurity

abbrev pub is_error : Diagnostic → Bool
is_error d = elim d.severity [
  | Severity.error ↦ true
  | Severity.warning ↦ false
  | Severity.note ↦ false
]

-- `has_errors`: every diagnostic of the purity check is an error.
abbrev pub has_errors : HirLowerResult → Bool
has_errors r = any is_error r.diagnostics || elim r.purity_errors [ [] ↦ false | _ ∷ _ ↦ true ]

abbrev pub analyzed : HirModule × LowerCtx → Option HirLowerResult
analyzed (hir, ctx) = do
  report ← analyze hir
  errors ← check hir report
  some
      (record { hir = hir; diagnostics = ctx.diagnostics; purity_errors = errors; purity = report })

unfoldable pub lower_to_hir : Module → Option HirLowerResult
lower_to_hir ast = do lowered ← lower_module ast new_ctx; analyzed lowered
