-- ===== src/Tests/LowerTests.antt =====
-- A module `import a.b`, `type Box { Full(item) }`, and
-- `fn greet(x) { let y = x <> missing; y |> greet }`.
use asatsuyu.Base.{◌≡◌, ◌↔◌, refl, false, Option, none, some, List, [], ◌∷◌, ◌++◌, String, map}
use asatsuyu.Syntax.Span.{dummy}
use asatsuyu.Syntax.Diagnostic.{Diagnostic, DiagnosticCode}
use asatsuyu.Hir.{BinOp, DefKind, DefData, HirModule, Visibility}
use asatsuyu.Ast.{Ident, Module, Import, FnDef, Definition, CustomType, TypeBody, Expr, Exprs}
use asatsuyu.Purity.Check.Verdict.{PureAsDeclared}
use asatsuyu.Lower.Context.{LowerCtx, find_name, new_ctx}
use asatsuyu.Lower.Entry.{HirLowerResult, has_errors, lower_to_hir}
use asatsuyu.Lower.Modules.{lower_module}
use asatsuyu.Lower.Declared.{module_issues}
use asatsuyu.Lower.Tells.{issues}
use asatsuyu.Lower.Verdict.{lower_to_hir_lem, lower_to_hir-issues}
use asatsuyu.Lower.Trace.Whole.{plain_module, read_module, lower_module_lem}

abbrev named : String → Ident
named name = record { name = name; span = dummy }

abbrev use_of : String → Expr
use_of name = Expr.variable (named name)

abbrev greet : FnDef
greet = record {
  name = named "greet";
  visibility = Visibility.public;
  is_async = false;
  pure_span = some dummy;
  params = record { name = named "x"; type_ann = none; span = dummy } ∷ [];
  return_type = none;
  body =
      Expr.block
        (Exprs.then_expr
          (Expr.let_expr (named "y")
            (Expr.binary_op BinOp.string_concat (use_of "x") (use_of "missing") dummy) false dummy)
          (Exprs.then_expr (Expr.pipeline (use_of "y") (use_of "greet") dummy) Exprs.no_expr))
        dummy;
  span = dummy;
}

abbrev box : CustomType
box = record {
  name = named "Box";
  visibility = Visibility.private;
  type_params = [];
  body = TypeBody.variants (record { name = named "Full"; fields = []; span = dummy } ∷ []);
  span = dummy;
}

abbrev greetings : Module
greetings = record {
  imports = Import.module_path (named "a" ∷ named "b" ∷ []) none dummy ∷ [];
  definitions = Definition.custom_type box ∷ Definition.function greet ∷ [];
  span = dummy;
}

-- The names of the arena, and the codes of the diagnostics.
abbrev def_names : List DefData → List String
def_names = map (λ (d : DefData). d.name)

abbrev codes : List Diagnostic → List (Option DiagnosticCode)
codes = map (λ (d : Diagnostic). d.code)

abbrev arena_and_codes : Option (HirModule × LowerCtx) → List String × List (Option DiagnosticCode)
arena_and_codes none = ([], [])
arena_and_codes (some (_, c)) = (def_names c.symbol_table, codes c.diagnostics)

greetings_run : arena_and_codes (lower_module greetings new_ctx) ≡ (
  "string_concat" ∷ "println" ∷ "list" ∷ "option" ∷ "b" ∷ "Box" ∷ "Full" ∷ "greet" ∷ "x" ∷ "y"
      ∷ "missing" ∷ [],
  some DiagnosticCode.e0152 ∷ [],
)
unfolding lower_module find_name
greetings_run = refl

lower_module_lem_example :
    (h : HirModule) × (q : LowerCtx) × (lower_module greetings new_ctx ≡ some (h, q))
    × (read_module q.symbol_table h ≡ some (plain_module greetings))
lower_module_lem_example = lower_module_lem greetings

lower_to_hir_lem_example :
    (r : HirLowerResult) × (lower_to_hir greetings ≡ some r)
    × ((r.purity_errors ≡ []) ↔ PureAsDeclared r.hir)
    × (has_errors r ≡ false → PureAsDeclared r.hir)
lower_to_hir_lem_example = lower_to_hir_lem greetings

lower_to_hir-issues_example :
    (r : HirLowerResult) × (lower_to_hir greetings ≡ some r)
    × (issues r.diagnostics ≡ module_issues greetings)
lower_to_hir-issues_example = lower_to_hir-issues greetings

-- `greet` before a second function, entered as the fifth definition.
abbrev with_greet : LowerCtx
with_greet = record {
  symbol_table =
      new_ctx.symbol_table
      ++ record { name = "greet"; kind = DefKind.function; is_mutable = false; span = dummy } ∷ [];
  diagnostics = [];
  scopes = (("greet", 4) ∷ ("string_concat", 0) ∷ []) ∷ [];
  string_concat_id = 0;
}
