-- ===== src/Lower/Declared.antt =====
-- The names that the imports and the definitions of a module add to the module scope, and which of
-- them are there already; and the issues of a whole module.
use asatsuyu.Base.{Option, none, some, List, [], ◌∷◌, ◌++◌, String}
use asatsuyu.Ast.{Ident, Import, Variant, Definition, Module}
use asatsuyu.Lower.Modules.{bound_name, variants_of}
use asatsuyu.Lower.Trace.Definitions.{functions_of}
use asatsuyu.Lower.Scoping.{Issue, redefined, fns_issues}

abbrev pub name_bound : Import → Option Ident
name_bound (Import.module_path segments alias span) = bound_name segments alias
name_bound (Import.python module_name none span) = some module_name
name_bound (Import.python module_name (some alias) span) = some alias

abbrev pub option_name : Option Ident → List String → List String
option_name none here = here
option_name (some name) here = name.name ∷ here

abbrev pub option_issue : Option Ident → List String → List Issue
option_issue none here = []
option_issue (some name) here = redefined here name

unfoldable pub imports_names : List Import → List String → List String
imports_names [] here = here
imports_names (i ∷ imports) here = imports_names imports (option_name (name_bound i) here)

unfoldable pub imports_issues : List Import → List String → List Issue
imports_issues [] here = []
imports_issues (i ∷ imports) here =
    option_issue (name_bound i) here ++ imports_issues imports (option_name (name_bound i) here)

unfoldable pub variants_names : List Variant → List String → List String
variants_names [] here = here
variants_names (v ∷ vs) here = variants_names vs (v.name.name ∷ here)

unfoldable pub variants_issues : List Variant → List String → List Issue
variants_issues [] here = []
variants_issues (v ∷ vs) here = redefined here v.name ++ variants_issues vs (v.name.name ∷ here)

unfoldable pub defs_names : List Definition → List String → List String
unfolding variants_names
defs_names [] here = here
defs_names (Definition.function f ∷ ds) here = defs_names ds (f.name.name ∷ here)
defs_names (Definition.custom_type ct ∷ ds) here =
    defs_names ds (variants_names (variants_of ct.body) (ct.name.name ∷ here))

unfoldable pub defs_issues : List Definition → List String → List Issue
unfolding variants_names variants_issues
defs_issues [] here = []
defs_issues (Definition.function f ∷ ds) here =
    redefined here f.name ++ defs_issues ds (f.name.name ∷ here)
defs_issues (Definition.custom_type ct ∷ ds) here =
    let inside = ct.name.name ∷ here in
    let vs = variants_of ct.body in
    redefined here ct.name
    ++ (variants_issues vs inside ++ defs_issues ds (variants_names vs inside))

abbrev pub builtin_names : List String
builtin_names = "option" ∷ "list" ∷ "println" ∷ "string_concat" ∷ []

-- Imports come first, then the definitions, and the functions are lowered when all names of the
-- module are known.
unfoldable pub module_issues : Module → List Issue
unfolding imports_names imports_issues defs_names defs_issues fns_issues
module_issues ast =
    let imported = imports_names ast.imports builtin_names in
    imports_issues ast.imports builtin_names
    ++ (defs_issues ast.definitions imported
        ++ fns_issues (functions_of ast.definitions) (defs_names ast.definitions imported ∷ []))
