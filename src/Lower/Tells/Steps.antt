-- ===== src/Lower/Tells/Steps.antt =====
-- What the steps of lower.rs on names report.
use asatsuyu.Base.{
  ℕ, ◌≡◌, refl, Bool, false, Option, none, some, List, [], ◌∷◌, ◌++◌, length, String, get_elem?,
  Option-cases, inl, inr,
}
use asatsuyu.Syntax.Span.{Span}
use asatsuyu.Syntax.Diagnostic.{Diagnostic, DiagnosticCode}
use asatsuyu.Hir.{DefKind, DefData}
use asatsuyu.Ast.{Ident}
use asatsuyu.Lower.Context.{
  Scope, LowerCtx, scope_get, find_name, pop, define_or_report, report_previous, define_local,
  define_module_level, quoted, duplicate_binding, duplicate_definition,
}
use asatsuyu.Lower.Exprs.{bind_local, resolve_or_report, or_placeholder}
use asatsuyu.Lower.Modules.{bind_module}
use asatsuyu.Lower.Scoping.{unless_new, unless_known, rebound, redefined}
use asatsuyu.Lower.Tells.{
  keys, all_keys, issue_of, Tells, stops, tells, and_then, and_last, returned, issues-snoc,
  has_name-scope_get, in_scope-find_name,
}

-- The context after `push`.
abbrev pub pushed : LowerCtx → LowerCtx
pushed c = record c { scopes = [] ∷ c.scopes }

pub pushed-keys :
    (c : LowerCtx) (env : List (List String))
    → (all_keys c.scopes ≡ env)
    → all_keys (pushed c).scopes ≡ [] ∷ env
pushed-keys c env e = rw e refl

module _ (t : List DefData) (ds : List Diagnostic) (k : ℕ) where
  abbrev inside : List Scope → LowerCtx
  inside scopes = record {
    symbol_table = t;
    diagnostics = ds;
    scopes = scopes;
    string_concat_id = k;
  }

  pop-inside :
      (scopes : List Scope) (here : List String) (env : List (List String))
      → (all_keys scopes ≡ here ∷ env)
      → Tells ds env [] (pop (inside scopes))
  pop-inside [] here env e = absurd (cc e)
  pop-inside (scope ∷ scopes) here env e = returned (cc e)

  module _ (code : DiagnosticCode) (what : String) (duplicate : Ident → Span → Diagnostic)
      (name : Ident) (id : ℕ)
      (same : (previous : Span)
        → issue_of (duplicate name previous)
          ≡ (some code, quoted what name.name "", name.span)) where
    previous-Tells :
        (scope : Scope) (scopes : List Scope) (previous : Option ℕ)
        → (scope_get name.name scope ≡ previous)
        → Tells ds
            ((name.name ∷ keys scope) ∷ all_keys scopes)
            (unless_new code what (keys scope) name)
            (report_previous duplicate name previous (inside (((name.name, id) ∷ scope) ∷ scopes)))
    previous-Tells scope scopes none e =
        rw (has_name-scope_get name.name scope, e, unless_new) (returned refl)
    previous-Tells scope scopes (some i) e = elim (Option-cases (get_elem? t i)) [
      | inl missing ↦ rw missing stops
      | inr (d, found) ↦
          rw (has_name-scope_get name.name scope, e, found, unless_new)
            (tells refl (rw (issues-snoc ds (duplicate name d.span), same d.span) refl))
    ]

    define-Tells :
        (scopes : List Scope) (here : List String) (env : List (List String))
        → (all_keys scopes ≡ here ∷ env)
        → Tells ds
            ((name.name ∷ here) ∷ env)
            (unless_new code what here name)
            (define_or_report duplicate name id (inside scopes))
    define-Tells [] here env e = absurd (cc e)
    define-Tells (scope ∷ scopes) here env e =
        let first : keys scope ≡ here = cc e in
        let others : all_keys scopes ≡ env = cc e in
        rw (← first, ← others) (previous-Tells scope scopes (scope_get name.name scope) refl)

pub pop-Tells :
    (c : LowerCtx) (here : List String) (env : List (List String))
    → (all_keys c.scopes ≡ here ∷ env)
    → Tells c.diagnostics env [] (pop c)
pop-Tells c here env e =
    pop-inside c.symbol_table c.diagnostics c.string_concat_id c.scopes here env e

-- `pop` before a result.
pub pop-last :
    {A : Type 0} (x : A) (c : LowerCtx) (here : List String) (env : List (List String))
    → (all_keys c.scopes ≡ here ∷ env)
    → Tells c.diagnostics env [] (elim (pop c) [ none ↦ none | some (_, d) ↦ some (x, d) ])
pop-last {A} x c here env e =
    and_then {f = λ _ d. some (x, d)} (pop-Tells c here env e) (λ _ q s. returned s)

module _ (kind : DefKind) (name : Ident) (c : LowerCtx) (here : List String)
    (env : List (List String)) (e : all_keys c.scopes ≡ here ∷ env) where
  pub bind_local-Tells :
      (is_mutable : Bool)
      → Tells c.diagnostics
          ((name.name ∷ here) ∷ env)
          (rebound here name)
          (bind_local kind is_mutable name c)
  unfolding bind_local define_local
  bind_local-Tells is_mutable =
      let d : DefData = record {
        name = name.name;
        kind = kind;
        is_mutable = is_mutable;
        span = name.span;
      } in
      and_last
        (define-Tells (c.symbol_table ++ d ∷ []) c.diagnostics c.string_concat_id
          DiagnosticCode.e0150 "duplicate binding " duplicate_binding name (length c.symbol_table)
          (λ s. refl) c.scopes here env e)
        (λ _ q s. returned s)

  pub bind_module-Tells :
      Tells c.diagnostics ((name.name ∷ here) ∷ env) (redefined here name) (bind_module kind name c)
  unfolding bind_module define_module_level
  bind_module-Tells =
      let d : DefData = record {
        name = name.name;
        kind = kind;
        is_mutable = false;
        span = name.span;
      } in
      and_last
        (define-Tells (c.symbol_table ++ d ∷ []) c.diagnostics c.string_concat_id
          DiagnosticCode.e0151 "duplicate definition " duplicate_definition name
          (length c.symbol_table) (λ s. refl) c.scopes here env e)
        (λ _ q s. returned s)

module _ (kind : DefKind) (code : DiagnosticCode) (what : String) (missing : Ident → Diagnostic)
    (name : Ident)
    (same : issue_of (missing name) ≡ (some code, quoted what name.name "", name.span))
    (c : LowerCtx) where
  or_placeholder-Tells :
      (found : Option ℕ)
      → (find_name name.name c.scopes ≡ found)
      → Tells c.diagnostics
          (all_keys c.scopes)
          (unless_known code what (all_keys c.scopes) name)
          (or_placeholder kind missing name found c)
  or_placeholder-Tells (some id) e =
      rw (in_scope-find_name name.name c.scopes, e, unless_known) (returned refl)
  or_placeholder-Tells none e =
      rw (in_scope-find_name name.name c.scopes, e, unless_known)
        (tells refl (rw (issues-snoc c.diagnostics (missing name), same) refl))

  pub resolve-Tells :
      (env : List (List String))
      → (all_keys c.scopes ≡ env)
      → Tells c.diagnostics env
          (unless_known code what env name)
          (resolve_or_report kind missing name c)
  unfolding resolve_or_report
  resolve-Tells env e = rw (← e) (or_placeholder-Tells (find_name name.name c.scopes) refl)
