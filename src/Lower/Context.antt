-- ===== src/Lower/Context.antt =====
-- `ScopeStack`, `HirLowerCtx` and the steps on them of lower.rs. The innermost scope stands first,
-- and a scope is a list of its entries with the latest first. A step fails where the source panics:
-- at `expect("scope stack empty")` and at a lookup outside the arena.
use Prim.Native.String
use text.Mathlib.Text.{◌==◌}
use asatsuyu.Base.{
  ℕ, Bool, true, false, Option, none, some, List, [], ◌∷◌, ◌++◌, length, get_elem?, String,
}
use asatsuyu.Syntax.Span.{Span, dummy}
use asatsuyu.Syntax.Diagnostic.{
  Diagnostic, DiagnosticCode, error_at, with_code, with_label, with_secondary_label, with_hint,
}
use asatsuyu.Hir.{DefKind, DefData}
use asatsuyu.Ast.{Ident}

abbrev pub Scope : Type 0
Scope = List (String × ℕ)

-- `scope.get(name)`
unfoldable pub scope_get : String → Scope → Option ℕ
scope_get name [] = none
scope_get name ((key, id) ∷ scope) = elim (key == name) [
  | true ↦ some id
  | false ↦ scope_get name scope
]

-- `ScopeStack::resolve`
unfoldable pub find_name : String → List Scope → Option ℕ
unfolding scope_get
find_name name [] = none
find_name name (scope ∷ scopes) = elim (scope_get name scope) [
  | some id ↦ some id
  | none ↦ find_name name scopes
]

pub record LowerCtx : Type 0 where
  pub symbol_table : List DefData
  pub diagnostics : List Diagnostic
  pub scopes : List Scope
  pub string_concat_id : ℕ

abbrev pub M : Type 0 → Type 0
M A = LowerCtx → Option (A × LowerCtx)

infixl 5 ◌>>=◌ ◌>>◌
abbrev pub ◌>>=◌ : {A B : Type 0} → M A → (A → M B) → M B
◌>>=◌ m f c = elim (m c) [ none ↦ none | some (x, d) ↦ f x d ]

abbrev pub ◌>>◌ : {A B : Type 0} → M A → M B → M B
m >> k = m >>= λ _. k

abbrev pub pure : {A : Type 0} → A → M A
pure x c = some (x, c)

abbrev pub done : M (Unit {0})
done c = some (tt, c)

-- `SymbolTable::alloc`
abbrev pub alloc : DefData → M ℕ
alloc entry c =
    some (length c.symbol_table, record c { symbol_table = c.symbol_table ++ entry ∷ [] })

abbrev pub new_def : DefKind → Bool → Ident → M ℕ
new_def kind is_mutable name =
    alloc (record { name = name.name; kind = kind; is_mutable = is_mutable; span = name.span })

-- `SymbolTable::get`
abbrev pub get_def : ℕ → M DefData
get_def id c = elim (get_elem? c.symbol_table id) [ some entry ↦ some (entry, c) | none ↦ none ]

abbrev pub push : M (Unit {0})
push c = some (tt, record c { scopes = [] ∷ c.scopes })

abbrev pub pop : M (Unit {0})
pop c = elim c.scopes [ [] ↦ some (tt, c) | _ ∷ outer ↦ some (tt, record c { scopes = outer }) ]

-- `ScopeStack::define`
abbrev pub define : String → ℕ → M (Option ℕ)
define name id c = elim c.scopes [
  | [] ↦ none
  | scope ∷ outer ↦ some (scope_get name scope, record c { scopes = ((name, id) ∷ scope) ∷ outer })
]

abbrev pub resolve : String → M (Option ℕ)
resolve name c = some (find_name name c.scopes, c)

abbrev pub report : Diagnostic → M (Unit {0})
report d c = some (tt, record c { diagnostics = c.diagnostics ++ d ∷ [] })

abbrev pub quoted : String → String → String → String
quoted before name after =
    String.◌++◌ before (String.◌++◌ "`" (String.◌++◌ name (String.◌++◌ "`" after)))

abbrev pub duplicate_binding : Ident → Span → Diagnostic
duplicate_binding name previous = with_hint "each name can only be bound once in the same scope" (
    with_secondary_label previous "previously bound here" (
      with_label name.span (quoted "" name.name " is rebound here") (
        with_code DiagnosticCode.e0150
          (error_at (quoted "duplicate binding " name.name "") name.span))))

abbrev pub duplicate_definition : Ident → Span → Diagnostic
duplicate_definition name previous = with_hint "rename one of the definitions" (
    with_secondary_label previous "previously defined here" (
      with_label name.span (quoted "" name.name " is redefined here") (
        with_code DiagnosticCode.e0151
          (error_at (quoted "duplicate definition " name.name "") name.span))))

-- `define_local` and `define_module_level`, with the diagnostic for a name that is there already.
abbrev pub report_previous : (Ident → Span → Diagnostic) → Ident → Option ℕ → M (Unit {0})
report_previous duplicate name none = done
report_previous duplicate name (some id) = do entry ← get_def id; report (duplicate name entry.span)

abbrev pub define_or_report : (Ident → Span → Diagnostic) → Ident → ℕ → M (Unit {0})
define_or_report duplicate name id = define name.name id >>= report_previous duplicate name

unfoldable pub define_local : Ident → ℕ → M (Unit {0})
unfolding scope_get
define_local name id = define_or_report duplicate_binding name id

unfoldable pub define_module_level : Ident → ℕ → M (Unit {0})
unfolding scope_get
define_module_level name id = define_or_report duplicate_definition name id

-- The builtins of `HirLowerCtx::new`, in the order of their allocation.
abbrev pub builtins : List String
builtins = "string_concat" ∷ "println" ∷ "list" ∷ "option" ∷ []

abbrev pub builtin_entries : List String → List DefData
builtin_entries [] = []
builtin_entries (name ∷ names) =
    record { name = name; kind = DefKind.builtin; is_mutable = false; span = dummy }
    ∷ builtin_entries names

-- `HirLowerCtx::new`: the context after the allocations and the definitions.
abbrev pub new_ctx : LowerCtx
new_ctx = record {
  symbol_table = builtin_entries builtins;
  diagnostics = [];
  scopes = (("option", 3) ∷ ("list", 2) ∷ ("println", 1) ∷ ("string_concat", 0) ∷ []) ∷ [];
  string_concat_id = 0;
}
