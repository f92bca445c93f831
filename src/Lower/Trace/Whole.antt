-- ===== src/Lower/Trace/Whole.antt =====
-- A whole module through lower.rs, and what the result stands for.
use asatsuyu.Base.{◌≡◌, refl, Option, some, List, [], ◌∷◌, map, length, ◌>>=◌}
use asatsuyu.Syntax.Span.{Span}
use asatsuyu.Hir.{DefData, HirCustomType, HirModule}
use asatsuyu.Ast.{FnDef, CustomType, Module}
use asatsuyu.Purity.Check.Ids.{fn_ids}
use asatsuyu.Purity.Check.Verdict.{Distinct}
use asatsuyu.Lower.Context.{Scope, LowerCtx, new_ctx}
use asatsuyu.Lower.Modules.{TypeEntry, lower_custom_type, lowered_module, lower_module}
use asatsuyu.Lower.Trace.{Ready, Kept, Kept-here, Good, returns, seq, Later-Kept}
use asatsuyu.Lower.Trace.Patterns.{Reads}
use asatsuyu.Lower.Trace.Functions.{plain_fn, read_fns, second, lower_functions-Good}
use asatsuyu.Lower.Trace.Types.{plain_custom_type, read_custom_type, read-lower_custom_type}
use asatsuyu.Lower.Trace.Toplevel.{BoundImport, bound_imports, read_imports, register_imports-Good}
use asatsuyu.Lower.Trace.Definitions.{
  functions_of, types_of, TypeEntries, Rising-Distinct, register_top_level-Good,
}

-- The parts of a module: its imports as the names that they bind, its functions and its types.
pub record Parts : Type 0 where
  pub imports : List BoundImport
  pub functions : List FnDef
  pub custom_types : List CustomType
  pub span : Span

unfoldable pub plain_module : Module → Parts
plain_module ast = record {
  imports = bound_imports ast.imports;
  functions = map plain_fn (functions_of ast.definitions);
  custom_types = map plain_custom_type (types_of ast.definitions);
  span = ast.span;
}

unfoldable pub read_custom_types : List DefData → List HirCustomType → Option (List CustomType)
unfolding read_custom_type
read_custom_types t [] = some []
read_custom_types t (h ∷ hs) = do
  ct ← read_custom_type t h
  cts ← read_custom_types t hs
  some (ct ∷ cts)

unfoldable pub read_module : List DefData → HirModule → Option Parts
unfolding read_imports read_fns read_custom_types
read_module t h = do
  imports ← read_imports t h.imports
  functions ← read_fns t h.functions
  custom_types ← read_custom_types t h.custom_types
  some (record {
    imports = imports;
    functions = functions;
    custom_types = custom_types;
    span = h.span;
  })

read-lower_custom_types :
    (t : List DefData) (cts : List CustomType) (entries : List TypeEntry)
    → TypeEntries cts entries t
    → read_custom_types t (map lower_custom_type entries) ≡ some (map plain_custom_type cts)
unfolding read_custom_types
read-lower_custom_types t [] [] h = refl
read-lower_custom_types t (ct ∷ cts) (entry ∷ entries) (h, hs) =
    rw (read-lower_custom_type t ct entry h, read-lower_custom_types t cts entries hs) refl
read-lower_custom_types t [] (_ ∷ _) h = elim h [ ]
read-lower_custom_types t (_ ∷ _) [] h = elim h [ ]

new_ctx-Ready : Ready [] new_ctx
new_ctx-Ready = record {
  inner = ("option", 3) ∷ ("list", 2) ∷ ("println", 1) ∷ ("string_concat", 0) ∷ [];
  shape = refl;
  named = ((refl, (refl, (refl, (refl, tt)))), tt);
  concat = refl;
}

-- What the module has, with the arena in which it was made.
pub record Whole (ast : Module) (h : HirModule) (q : LowerCtx) : Type 0 where
  pub reads : Reads read_module (plain_module ast) h q
  pub distinct : Distinct (fn_ids h.functions)

pub lower_module-Good : (ast : Module) → Good new_ctx [] (Whole ast) (lower_module ast new_ctx)
unfolding lower_module read_module plain_module
lower_module-Good ast =
    seq (register_imports-Good ast.imports new_ctx [] new_ctx-Ready) (λ imports q1 k1 h1.
      seq (register_top_level-Good ast.definitions q1 [] k1.ready) (λ entries q2 k2 h2.
        seq
          (lower_functions-Good (functions_of ast.definitions) entries.0 q2 [] k2.ready
            h2.functions)
          (λ functions q3 k3 h3.
            returns {x = lowered_module ast imports functions entries.1 q3.symbol_table}
              (Kept-here k3.ready)
              (record {
                reads = λ t e.
                    let cts = types_of ast.definitions in
                    let types =
                      read-lower_custom_types t cts entries.1 (Later-Kept k3 h2.types t e) in
                    rw (Later-Kept k3 (Later-Kept k2 h1) t e, h3.0 t e, types) refl;
                distinct =
                    rw h3.1 (Rising-Distinct (length q1.symbol_table) (second entries.0) h2.rising);
              }))))

pub Good-result :
    {A : Type 0} {o : LowerCtx} {outer : List Scope} {Q : A → LowerCtx → Type 0}
    {r : Option (A × LowerCtx)}
    → Good o outer Q r
    → (x : A) × (q : LowerCtx) × (r ≡ some (x, q)) × Kept o outer q × Q x q
Good-result (returns {x} {c} k h) = (x, c, refl, k, h)

-- Every module is lowered without a panic, and the result, read in the arena that it was made with,
-- gives back the imports with the names that they bind, the functions and the custom types of the
-- module in order, desugared: so every identifier of the result has an entry in the arena, under the
-- name that stands in the source.
pub lower_module_lem :
    (ast : Module)
    → (h : HirModule) × (q : LowerCtx) × (lower_module ast new_ctx ≡ some (h, q))
      × (read_module q.symbol_table h ≡ some (plain_module ast))
lower_module_lem ast =
    let (h, q, e, k, w) = Good-result (lower_module-Good ast) in
    (h, q, e, w.reads q.symbol_table (λ i d p. p))
