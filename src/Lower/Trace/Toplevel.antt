-- ===== src/Lower/Trace/Toplevel.antt =====
-- The names that lower.rs registers in the module scope: imports, functions, types, constructors.
use asatsuyu.Base.{◌≡◌, refl, Option, none, some, List, [], ◌∷◌, ◌>>=◌}
use asatsuyu.Syntax.Span.{Span}
use asatsuyu.Hir.{DefKind, DefData, HirImport, HirImportKind}
use asatsuyu.Ast.{Ident, Import, Variant}
use asatsuyu.Lower.Context.{Scope, LowerCtx}
use asatsuyu.Lower.Modules.{
  bound_name, names_of, register_bound, register_import, register_imports, with_some,
  register_variants,
}
use asatsuyu.Lower.ReadBack.{ident_at}
use asatsuyu.Lower.Trace.{Ready, Kept-here, Good, returns, seq, Later, Later-Kept}
use asatsuyu.Lower.Trace.Bindings.{bind_module-Good}
use asatsuyu.Lower.Trace.Patterns.{Reads}
use asatsuyu.Lower.Trace.Types.{Constructors}

-- An import and the name that it binds.
pub record BoundImport : Type 0 where
  pub name : Ident
  pub kind : HirImportKind
  pub span : Span

abbrev pub bound_as : HirImportKind → Span → Option Ident → Option BoundImport
bound_as kind span none = none
bound_as kind span (some name) = some (record { name = name; kind = kind; span = span })

abbrev pub bound_import : Import → Option BoundImport
bound_import (Import.module_path segments alias span) =
    bound_as (HirImportKind.module_path (names_of segments)) span (bound_name segments alias)
bound_import (Import.python module_name none span) =
    bound_as (HirImportKind.python module_name.name) span (some module_name)
bound_import (Import.python module_name (some alias) span) =
    bound_as (HirImportKind.python module_name.name) span (some alias)

abbrev pub bound_imports : List Import → List BoundImport
bound_imports [] = []
bound_imports (i ∷ imports) = with_some (bound_import i) (bound_imports imports)

unfoldable pub read_imports : List DefData → List HirImport → Option (List BoundImport)
read_imports t [] = some []
read_imports t (h ∷ hs) = do
  name ← ident_at t h.def_id
  rest ← read_imports t hs
  some (record { name = name; kind = h.kind; span = h.span } ∷ rest)

-- An import that binds a name, read back; nothing for one that binds none.
abbrev ReadsImport : Option BoundImport → Option HirImport → List DefData → Type 0
ReadsImport none none t = Unit
ReadsImport (some b) (some h) t =
    (ident_at t h.def_id ≡ some b.name) × (h.kind ≡ b.kind) × (h.span ≡ b.span)
ReadsImport _ _ t = ⊥

read-with_some :
    (t : List DefData) (b : Option BoundImport) (h : Option HirImport) (bs : List BoundImport)
    (hs : List HirImport)
    → ReadsImport b h t
    → read_imports t hs ≡ some bs
    → read_imports t (with_some h hs) ≡ some (with_some b bs)
unfolding read_imports
read-with_some t none none bs hs r e = e
read-with_some t (some b) (some h) bs hs (name, kind, span) e = rw (name, kind, span, e) refl
read-with_some t none (some _) bs hs r e = elim r [ ]
read-with_some t (some _) none bs hs r e = elim r [ ]

register_bound-Good :
    (kind : HirImportKind) (span : Span) (name : Option Ident) (c : LowerCtx) (outer : List Scope)
    → Ready outer c
    → Good c outer
        (λ h. Later (ReadsImport (bound_as kind span name) h))
        (register_bound kind span name c)
unfolding register_bound
register_bound-Good kind span none c outer r = returns (Kept-here r) (λ t e. tt)
register_bound-Good kind span (some name) c outer r =
    seq (bind_module-Good DefKind.import c outer r name)
      (λ id q k h. returns (Kept-here k.ready) (λ t e. (h.0 t e, refl, refl)))

register_import-Good :
    (i : Import) (c : LowerCtx) (outer : List Scope)
    → Ready outer c
    → Good c outer (λ h. Later (ReadsImport (bound_import i) h)) (register_import i c)
register_import-Good (Import.module_path segments alias span) c outer r =
    register_bound-Good (HirImportKind.module_path (names_of segments)) span
      (bound_name segments alias) c outer r
register_import-Good (Import.python name none span) c outer r =
    register_bound-Good (HirImportKind.python name.name) span (some name) c outer r
register_import-Good (Import.python name (some alias) span) c outer r =
    register_bound-Good (HirImportKind.python name.name) span (some alias) c outer r

pub register_imports-Good :
    (imports : List Import) (c : LowerCtx) (outer : List Scope)
    → Ready outer c
    → Good c outer (Reads read_imports (bound_imports imports)) (register_imports imports c)
unfolding register_imports read_imports
register_imports-Good [] c outer r = returns (Kept-here r) (λ t e. refl)
register_imports-Good (i ∷ imports) c outer r =
    seq (register_import-Good i c outer r) (λ h q1 k1 h1.
      seq (register_imports-Good imports q1 outer k1.ready) (λ hs q2 k2 h2.
        returns {x = with_some h hs} (Kept-here k2.ready) (λ t e.
          read-with_some t (bound_import i) h (bound_imports imports) hs (Later-Kept k2 h1 t e)
            (h2 t e))))

pub register_variants-Good :
    (vs : List Variant) (c : LowerCtx) (outer : List Scope)
    → Ready outer c
    → Good c outer (λ ids. Later (λ t. Constructors t vs ids)) (register_variants vs c)
unfolding register_variants
register_variants-Good [] c outer r = returns (Kept-here r) (λ t e. tt)
register_variants-Good (v ∷ vs) c outer r =
    seq (bind_module-Good DefKind.constructor c outer r v.name) (λ id q1 k1 h1.
      seq (register_variants-Good vs q1 outer k1.ready) (λ ids q2 k2 h2.
        returns {x = id ∷ ids} (Kept-here k2.ready) (λ t e. (Later-Kept k2 h1.0 t e, h2 t e))))
