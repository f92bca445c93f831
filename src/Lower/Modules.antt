-- ===== src/Lower/Modules.antt =====
-- Functions, custom types and modules of lower.rs.
use asatsuyu.Base.{ℕ, Bool, true, false, Option, none, some, List, [], ◌∷◌, map, length, String}
use asatsuyu.Syntax.Span.{Span, dummy}
use asatsuyu.Hir.{
  DefKind, DefData, SymbolTable, HirParam, HirExpr, HirFnDef, HirFieldType, HirVariant,
  HirCustomType, HirImport, HirImportKind, HirModule,
}
use asatsuyu.Ast.{
  Ident, Import, FnDef, RecordField, VariantField, Variant, TypeBody, CustomType, Definition,
  Module,
}
use asatsuyu.Lower.Context.{M, ◌>>=◌, ◌>>◌, pure, new_def, push, pop, define_module_level}
use asatsuyu.Lower.Exprs.{lower_type_expr, lower_type_option, lower_params, lower_expr}

-- A definition of a kind that is bound in the module scope.
unfoldable pub bind_module : DefKind → Ident → M ℕ
unfolding define_module_level
bind_module kind name = do id ← new_def kind false name; define_module_level name id; pure id

-- The alias, or the last segment of the path.
abbrev pub bound_name : List Ident → Option Ident → Option Ident
bound_name segments (some alias) = some alias
bound_name [] none = none
bound_name (name ∷ []) none = some name
bound_name (name ∷ names) none = bound_name names none

abbrev pub names_of : List Ident → List String
names_of = map (λ (i : Ident). i.name)

-- An import whose path is empty binds no name, and is left out.
unfoldable pub register_bound : HirImportKind → Span → Option Ident → M (Option HirImport)
unfolding bind_module
register_bound kind span none = pure none
register_bound kind span (some name) = do
  id ← bind_module DefKind.import name
  pure (some (record { def_id = id; kind = kind; span = span }))

abbrev pub register_import : Import → M (Option HirImport)
register_import (Import.module_path segments alias span) =
    register_bound (HirImportKind.module_path (names_of segments)) span (bound_name segments alias)
register_import (Import.python module_name alias span) =
    register_bound (HirImportKind.python module_name.name) span
      (elim alias [ some name ↦ some name | none ↦ some module_name ])

abbrev pub with_some {ℓ} : {A : Type ℓ} → Option A → List A → List A
with_some none xs = xs
with_some (some x) xs = x ∷ xs

unfoldable pub register_imports : List Import → M (List HirImport)
unfolding register_bound
register_imports [] = pure []
register_imports (i ∷ imports) = do
  hir ← register_import i
  rest ← register_imports imports
  pure (with_some hir rest)

unfoldable pub register_variants : List Variant → M (List ℕ)
unfolding bind_module
register_variants [] = pure []
register_variants (variant ∷ variants) = do
  id ← bind_module DefKind.constructor variant.name
  ids ← register_variants variants
  pure (id ∷ ids)

abbrev pub variants_of : TypeBody → List Variant
variants_of (TypeBody.variants variants) = variants
variants_of (TypeBody.record_fields _) = []

pub record TypeEntry : Type 0 where
  pub custom_type : CustomType
  pub def_id : ℕ
  pub ctor_ids : List ℕ

-- The function entries and the custom type entries of the module.
unfoldable pub register_top_level : List Definition → M (List (FnDef × ℕ) × List TypeEntry)
unfolding bind_module register_variants
register_top_level [] = pure ([], [])
register_top_level (Definition.function f ∷ definitions) = do
  id ← bind_module DefKind.function f.name
  entries ← register_top_level definitions
  pure ((f, id) ∷ entries.0, entries.1)
register_top_level (Definition.custom_type ct ∷ definitions) = do
  id ← bind_module DefKind.type_name ct.name
  ids ← register_variants (variants_of ct.body)
  entries ← register_top_level definitions
  pure (entries.0, record { custom_type = ct; def_id = id; ctor_ids = ids } ∷ entries.1)

abbrev pub lower_field : VariantField → HirFieldType
lower_field f = record {
  label = elim f.label [ some l ↦ some l.name | none ↦ none ];
  type_expr = lower_type_expr f.type_ann;
  span = f.span;
}

abbrev pub lower_record_field : RecordField → HirFieldType
lower_record_field f = record {
  label = some f.name.name;
  type_expr = lower_type_expr f.type_ann;
  span = f.span;
}

-- `variants.iter().zip(ctor_ids.iter())`
abbrev pub lower_variants : List Variant → List ℕ → List HirVariant
lower_variants (v ∷ vs) (id ∷ ids) =
    record { def_id = id; fields = map lower_field v.fields; span = v.span } ∷ lower_variants vs ids
lower_variants _ _ = []

-- A record type has one variant, with the definition of the type.
unfoldable pub lower_body : TypeBody → TypeEntry → List HirVariant
unfolding lower_type_expr
lower_body (TypeBody.variants variants) entry = lower_variants variants entry.ctor_ids
lower_body (TypeBody.record_fields fields) entry =
    record {
      def_id = entry.def_id;
      fields = map lower_record_field fields;
      span = entry.custom_type.span;
    }
    ∷ []

unfoldable pub lower_custom_type : TypeEntry → HirCustomType
unfolding lower_body
lower_custom_type entry = record {
  def_id = entry.def_id;
  visibility = entry.custom_type.visibility;
  type_params = names_of entry.custom_type.type_params;
  variants = lower_body entry.custom_type.body entry;
  span = entry.custom_type.span;
}

abbrev pub lowered_fn : FnDef → ℕ → List HirParam → HirExpr → HirFnDef
lowered_fn f id params body = record {
  def_id = id;
  visibility = f.visibility;
  is_async = f.is_async;
  pure_span = f.pure_span;
  params = params;
  return_type = lower_type_option f.return_type;
  body = body;
  span = f.span;
}

unfoldable pub lower_fn_def : FnDef → ℕ → M HirFnDef
unfolding lower_params lower_expr
lower_fn_def f id = do
  push
  params ← lower_params f.params
  body ← lower_expr f.body
  pop
  pure (lowered_fn f id params body)

unfoldable pub lower_functions : List (FnDef × ℕ) → M (List HirFnDef)
unfolding lower_fn_def
lower_functions [] = pure []
lower_functions ((f, id) ∷ entries) = do
  function ← lower_fn_def f id
  functions ← lower_functions entries
  pure (function ∷ functions)

-- The arena as a function; no lookup goes past its end.
abbrev pub table_of : List DefData → SymbolTable
table_of [] id = record { name = ""; kind = DefKind.builtin; is_mutable = false; span = dummy }
table_of (d ∷ ds) id = elim id [ asatsuyu.Base.zero ↦ d | asatsuyu.Base.suc i ↦ table_of ds i ]

abbrev pub lowered_module :
    Module → List HirImport → List HirFnDef → List TypeEntry → List DefData → HirModule
lowered_module ast imports functions entries table = record {
  imports = imports;
  functions = functions;
  custom_types = map lower_custom_type entries;
  symbol_table = table_of table;
  span = ast.span;
}

unfoldable pub lower_module : Module → M HirModule
unfolding register_imports register_top_level lower_functions lower_custom_type
lower_module ast = do
  imports ← register_imports ast.imports
  entries ← register_top_level ast.definitions
  functions ← lower_functions entries.0
  λ c. some (lowered_module ast imports functions entries.1 c.symbol_table, c)
