-- ===== src/Lower/Tells/Modules.antt =====
-- Functions and modules of lower.rs report the issues of lexical scoping.
use asatsuyu.Base.{◌≡◌, refl, ap, Option, none, some, List, [], ◌∷◌, String, ℕ}
use asatsuyu.Hir.{DefKind, HirImportKind}
use asatsuyu.Syntax.Span.{Span}
use asatsuyu.Ast.{Ident, Import, FnDef, Variant, Definition, Module}
use asatsuyu.Lower.Context.{LowerCtx, new_ctx}
use asatsuyu.Lower.Modules.{
  bind_module, bound_name, names_of, register_bound, register_import, register_imports,
  register_variants, variants_of, TypeEntry, register_top_level, lowered_fn, lower_fn_def,
  lower_functions, lowered_module, lower_module,
}
use asatsuyu.Lower.Trace.Definitions.{functions_of}
use asatsuyu.Lower.Scoping.{params_names, expr_names, fn_issues, fns_issues}
use asatsuyu.Lower.Declared.{
  name_bound, option_name, option_issue, imports_names, imports_issues, variants_names,
  variants_issues, defs_names, defs_issues, builtin_names, module_issues,
}
use asatsuyu.Lower.Tells.{
  all_keys, Tells, and_then, and_last, and_given, returned, Yields, yields, Yields-after,
  Yields-any,
}
use asatsuyu.Lower.Tells.Steps.{pushed, pushed-keys, pop-last, bind_module-Tells}
use asatsuyu.Lower.Tells.Expressions.{lower_params-Tells, lower_expr-Tells}

register_bound-Tells :
    (kind : HirImportKind) (span : Span) (name : Option Ident) (c : LowerCtx) (here : List String)
    (env : List (List String))
    → (all_keys c.scopes ≡ here ∷ env)
    → Tells c.diagnostics
        (option_name name here ∷ env)
        (option_issue name here)
        (register_bound kind span name c)
unfolding register_bound
register_bound-Tells kind span none c here env e = returned e
register_bound-Tells kind span (some name) c here env e =
    and_last (bind_module-Tells DefKind.import name c here env e) (λ id q s. returned s)

register_import-Tells :
    (i : Import) (c : LowerCtx) (here : List String) (env : List (List String))
    → (all_keys c.scopes ≡ here ∷ env)
    → Tells c.diagnostics
        (option_name (name_bound i) here ∷ env)
        (option_issue (name_bound i) here)
        (register_import i c)
register_import-Tells (Import.module_path segments alias span) c here env e =
    register_bound-Tells (HirImportKind.module_path (names_of segments)) span
      (bound_name segments alias) c here env e
register_import-Tells (Import.python name none span) c here env e =
    register_bound-Tells (HirImportKind.python name.name) span (some name) c here env e
register_import-Tells (Import.python name (some alias) span) c here env e =
    register_bound-Tells (HirImportKind.python name.name) span (some alias) c here env e

register_imports-Tells :
    (imports : List Import) (c : LowerCtx) (here : List String) (env : List (List String))
    → (all_keys c.scopes ≡ here ∷ env)
    → Tells c.diagnostics
        (imports_names imports here ∷ env)
        (imports_issues imports here)
        (register_imports imports c)
unfolding register_imports imports_names imports_issues
register_imports-Tells [] c here env e = returned e
register_imports-Tells (i ∷ imports) c here env e =
    and_then (register_import-Tells i c here env e) (λ h q s.
      and_last (register_imports-Tells imports q (option_name (name_bound i) here) env s)
        (λ hs q2 s2. returned s2))

register_variants-Tells :
    (vs : List Variant) (c : LowerCtx) (here : List String) (env : List (List String))
    → (all_keys c.scopes ≡ here ∷ env)
    → Tells c.diagnostics
        (variants_names vs here ∷ env)
        (variants_issues vs here)
        (register_variants vs c)
unfolding register_variants variants_names variants_issues
register_variants-Tells [] c here env e = returned e
register_variants-Tells (v ∷ vs) c here env e =
    and_then (bind_module-Tells DefKind.constructor v.name c here env e) (λ id q s.
      and_last (register_variants-Tells vs q (v.name.name ∷ here) env s) (λ ids q2 s2. returned s2))

register_top_level-Tells :
    (ds : List Definition) (c : LowerCtx) (here : List String) (env : List (List String))
    → (all_keys c.scopes ≡ here ∷ env)
    → Tells c.diagnostics (defs_names ds here ∷ env) (defs_issues ds here) (register_top_level ds c)
unfolding register_top_level defs_names defs_issues
register_top_level-Tells [] c here env e = returned e
register_top_level-Tells (Definition.function f ∷ ds) c here env e =
    and_then (bind_module-Tells DefKind.function f.name c here env e) (λ id q s.
      and_last (register_top_level-Tells ds q (f.name.name ∷ here) env s) (λ es q2 s2. returned s2))
register_top_level-Tells (Definition.custom_type ct ∷ ds) c here env e =
    and_then (bind_module-Tells DefKind.type_name ct.name c here env e) (λ id q s.
      let inside = ct.name.name ∷ here in
      and_then (register_variants-Tells (variants_of ct.body) q inside env s) (λ ids q2 s2.
        and_last
          (register_top_level-Tells ds q2 (variants_names (variants_of ct.body) inside) env s2)
          (λ es q3 s3. returned s3)))

abbrev firsts : List (FnDef × ℕ) → List FnDef
firsts [] = []
firsts ((f, _) ∷ entries) = f ∷ firsts entries

register_top_level-functions :
    (ds : List Definition) (c : LowerCtx)
    → Yields
        (λ (es : List (FnDef × ℕ) × List TypeEntry). firsts es.0 ≡ functions_of ds)
        (register_top_level ds c)
unfolding register_top_level
register_top_level-functions [] c = yields refl
register_top_level-functions (Definition.function f ∷ ds) c =
    Yields-after (Yields-any (bind_module DefKind.function f.name c)) (λ id q _.
      Yields-after (register_top_level-functions ds q) (λ es q2 e. yields (ap (λ fs. f ∷ fs) e)))
register_top_level-functions (Definition.custom_type ct ∷ ds) c =
    Yields-after (Yields-any (bind_module DefKind.type_name ct.name c)) (λ id q _.
      Yields-after (Yields-any (register_variants (variants_of ct.body) q))
        (λ ids q2 _. Yields-after (register_top_level-functions ds q2) (λ es q3 e. yields e)))

lower_fn_def-Tells :
    (f : FnDef) (id : ℕ) (c : LowerCtx) (env : List (List String))
    → (all_keys c.scopes ≡ env)
    → Tells c.diagnostics env (fn_issues f env) (lower_fn_def f id c)
unfolding lower_fn_def fn_issues
lower_fn_def-Tells f id c env e =
    and_then (lower_params-Tells f.params (pushed c) [] env (pushed-keys c env e)) (λ hp q s.
      and_last (lower_expr-Tells f.body q (params_names f.params []) env s) (λ hb q2 s2.
        pop-last (lowered_fn f id hp hb) q2 (expr_names f.body (params_names f.params [])) env s2))

lower_functions-Tells :
    (entries : List (FnDef × ℕ)) (c : LowerCtx) (env : List (List String))
    → (all_keys c.scopes ≡ env)
    → Tells c.diagnostics env (fns_issues (firsts entries) env) (lower_functions entries c)
unfolding lower_functions fns_issues
lower_functions-Tells [] c env e = returned e
lower_functions-Tells ((f, id) ∷ entries) c env e =
    and_then (lower_fn_def-Tells f id c env e)
      (λ h q s. and_last (lower_functions-Tells entries q env s) (λ hs q2 s2. returned s2))

pub lower_module-Tells :
    (ast : Module)
    → Tells []
        (defs_names ast.definitions (imports_names ast.imports builtin_names) ∷ [])
        (module_issues ast)
        (lower_module ast new_ctx)
unfolding lower_module module_issues
lower_module-Tells ast =
    let imported = imports_names ast.imports builtin_names in
    and_then (register_imports-Tells ast.imports new_ctx builtin_names [] refl) (λ imports q s.
      and_given (register_top_level-Tells ast.definitions q imported [] s)
        (register_top_level-functions ast.definitions q)
        (λ entries q2 s2 same. rw (← same) (
          and_last
            (lower_functions-Tells entries.0 q2 (defs_names ast.definitions imported ∷ []) s2)
            (λ fs q3 s3.
              returned {x = lowered_module ast imports fs entries.1 q3.symbol_table} s3))))
