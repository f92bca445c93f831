-- ===== src/Lower/Verdict.antt =====
-- The result of `lower_to_hir`: that there is one, its diagnostics, and the check of `pure`
-- declarations.
use asatsuyu.Base.{◌≡◌, ◌↔◌, refl, false, true, ◌||◌, any, arith, some, List, [], ◌∷◌}
use asatsuyu.Ast.{Module}
use asatsuyu.Purity.Check.{PurityError}
use asatsuyu.Purity.Check.Verdict.{PureAsDeclared, check_lem}
use asatsuyu.Purity.Report.{analyze_lem}
use asatsuyu.Lower.Context.{new_ctx}
use asatsuyu.Lower.Modules.{lower_module}
use asatsuyu.Lower.Entry.{HirLowerResult, is_error, has_errors, lower_to_hir}
use asatsuyu.Lower.Declared.{module_issues}
use asatsuyu.Lower.Tells.{issues, told}
use asatsuyu.Lower.Tells.Modules.{lower_module-Tells}
use asatsuyu.Lower.Trace.Whole.{Good-result, lower_module-Good}

empty-if_clean :
    (r : HirLowerResult) (errors : List PurityError)
    → (any is_error r.diagnostics || elim errors [ [] ↦ false | _ ∷ _ ↦ true ]) ≡ false
    → errors ≡ []
empty-if_clean r [] h = refl
empty-if_clean r (x ∷ xs) h = ground (arith, h)

-- What the result of a module has.
record Checked (ast : Module) (r : HirLowerResult) : Type 0 where
  pub made : lower_to_hir ast ≡ some r
  pub verdict : (r.purity_errors ≡ []) ↔ PureAsDeclared r.hir
  pub reported : issues r.diagnostics ≡ module_issues ast

lower_to_hir-Checked : (ast : Module) → (r : HirLowerResult) × Checked ast r
unfolding lower_to_hir
lower_to_hir-Checked ast =
    let (h, q, e, k, w) = Good-result (lower_module-Good ast) in
    let (report, e2, _, _) = analyze_lem h in
    let (errors, e3, iff) = check_lem h report w.distinct e2 in
    (
      record { hir = h; diagnostics = q.diagnostics; purity_errors = errors; purity = report },
      record {
        made = rw (e, e2, e3) refl;
        verdict = iff;
        reported = told (lower_module ast new_ctx) (lower_module-Tells ast) e;
      },
    )

-- Every module is lowered, analysed and checked without a panic and within the fuel of the
-- analysis. The purity check gives no diagnostic exactly if no function of the lowered module
-- that is declared `pure` is `async`, has in its body an expression that counts as an effect, or
-- calls by name, over any number of calls, a function that is or has; functions that are passed
-- as values are not followed. So no function that is declared `pure` is one of these when the
-- result has no errors.
pub lower_to_hir_lem :
    (ast : Module)
    → (r : HirLowerResult) × (lower_to_hir ast ≡ some r)
      × ((r.purity_errors ≡ []) ↔ PureAsDeclared r.hir)
      × (has_errors r ≡ false → PureAsDeclared r.hir)
lower_to_hir_lem ast =
    let (r, c) = lower_to_hir-Checked ast in
    (r, c.made, c.verdict, λ clean. c.verdict.0 (empty-if_clean r r.purity_errors clean))

-- The diagnostics of the lowering have, in order, the codes, messages and places of the issues of
-- lexical scoping on names: definitions of the module that repeat a name, names bound twice in one
-- scope, names that no enclosing scope has at that point, and unknown constructors in patterns.
pub lower_to_hir-issues :
    (ast : Module)
    → (r : HirLowerResult) × (lower_to_hir ast ≡ some r)
      × (issues r.diagnostics ≡ module_issues ast)
lower_to_hir-issues ast = let (r, c) = lower_to_hir-Checked ast in (r, c.made, c.reported)
