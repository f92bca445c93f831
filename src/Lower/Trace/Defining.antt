-- ===== src/Lower/Trace/Defining.antt =====
-- What the definition of a name in the innermost scope keeps.
use mathlib.Core.Path.{subst}
use asatsuyu.Base.{
  ℕ, ◌≡◌, refl, Option, none, some, List, [], ◌∷◌, ◌++◌, get_elem?, Option-cases, inl, inr,
}
use asatsuyu.Hir.{DefData}
use asatsuyu.Ast.{Ident}
use asatsuyu.Syntax.Span.{Span}
use asatsuyu.Syntax.Diagnostic.{Diagnostic}
use asatsuyu.Lower.Context.{
  Scope, scope_get, LowerCtx, define_local, define_module_level, define_or_report, report_previous,
  duplicate_binding, duplicate_definition,
}
use asatsuyu.Lower.ReadBack.{name_at}
use asatsuyu.Lower.Trace.{Named, scope_get-named, Ready, Kept, Good, returns}

-- Binding a name in the innermost scope does not fail: an earlier entry is in the arena.
module _ (t : List DefData) (ds : List Diagnostic) (k : ℕ) (duplicate : Ident → Span → Diagnostic)
    (name : Ident) (id : ℕ) (named : name_at t id ≡ some name.name)
    (concat : name_at t k ≡ some "string_concat") where
  abbrev inside : List Scope → LowerCtx
  inside scopes = record {
    symbol_table = t;
    diagnostics = ds;
    scopes = scopes;
    string_concat_id = k;
  }

  inside-Kept :
      (scope : Scope) (outer : List Scope) (ds2 : List Diagnostic)
      → Named t (scope ∷ outer)
      → Kept (inside (scope ∷ outer)) outer (record {
        symbol_table = t;
        diagnostics = ds2;
        scopes = ((name.name, id) ∷ scope) ∷ outer;
        string_concat_id = k;
      })
  inside-Kept scope outer ds2 (n, ns) = record {
    extends = λ i d e. e;
    ready = record {
      inner = (name.name, id) ∷ scope;
      shape = refl;
      named = ((named, n), ns);
      concat = concat;
    };
  }

  previous-Good :
      (scope : Scope) (outer : List Scope) (previous : Option ℕ)
      → Named t (scope ∷ outer)
      → scope_get name.name scope ≡ previous
      → Good
          (inside (scope ∷ outer))
          outer
          (λ _ _. Unit {0})
          (report_previous duplicate name previous (inside (((name.name, id) ∷ scope) ∷ outer)))
  previous-Good scope outer none n e = returns (inside-Kept scope outer ds n) tt
  previous-Good scope outer (some i) n e = elim (Option-cases (get_elem? t i)) [
    | inl missing ↦
        let known = scope_get-named t name.name scope i n.0 e in
        absurd (cc (rw (missing, name_at) at known))
    | inr (d, found) ↦
        rw found (returns (inside-Kept scope outer (ds ++ duplicate name d.span ∷ []) n) tt)
  ]

  define-Good :
      (scopes : List Scope) (inner : Scope) (outer : List Scope)
      → scopes ≡ inner ∷ outer
      → Named t scopes
      → Good
          (inside scopes)
          outer
          (λ _ _. Unit {0})
          (define_or_report duplicate name id (inside scopes))
  define-Good [] inner outer e n = absurd (cc e)
  define-Good (scope ∷ rest) inner outer e n =
      let same : rest ≡ outer = cc e in
      subst
        (λ o.
          Good (inside (scope ∷ rest)) o (λ _ _. Unit {0})
            (define_or_report duplicate name id (inside (scope ∷ rest))))
        same (previous-Good scope rest (scope_get name.name scope) n refl)

module _ (name : Ident) (id : ℕ) (c : LowerCtx) (outer : List Scope) (r : Ready outer c)
    (h : name_at c.symbol_table id ≡ some name.name) where
  pub define_local-Good : Good c outer (λ _ _. Unit {0}) (define_local name id c)
  unfolding define_local
  define_local-Good =
      define-Good c.symbol_table c.diagnostics c.string_concat_id duplicate_binding name id h
        r.concat c.scopes r.inner outer r.shape r.named

  pub define_module_level-Good : Good c outer (λ _ _. Unit {0}) (define_module_level name id c)
  unfolding define_module_level
  define_module_level-Good =
      define-Good c.symbol_table c.diagnostics c.string_concat_id duplicate_definition name id h
        r.concat c.scopes r.inner outer r.shape r.named
