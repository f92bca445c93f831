-- ===== src/Lower/Tells.antt =====
-- What a step of the lowering reports: if it returns, the names in scope are the given ones, and the
-- diagnostics are the ones before it followed by those of the given issues.
pub mod Steps
pub mod Expressions
pub mod Modules
use mathlib.Core.Path.{subst}
use text.Mathlib.Text.{◌==◌ as str_eq}
use asatsuyu.Base.{
  ℕ, ◌≡◌, refl, sym, ap, ◌∙◌, Bool, true, false, ◌||◌, Option, none, some, List, [], ◌∷◌, ◌++◌,
  String, map, get_elem?, arith, Option-cases, Bool-cases, inl, inr,
}
use mathlib.Core.List
use asatsuyu.Syntax.Span.{Span}
use asatsuyu.Syntax.Diagnostic.{Diagnostic, DiagnosticCode}
use asatsuyu.Hir.{DefKind}
use asatsuyu.Ast.{Ident}
use asatsuyu.Lower.Context.{
  Scope, LowerCtx, M, scope_get, find_name, push, pop, define_or_report, report_previous,
}
use asatsuyu.Lower.Scoping.{Issue, has_name, in_scope}

abbrev pub keys : Scope → List String
keys [] = []
keys ((name, _) ∷ scope) = name ∷ keys scope

abbrev pub all_keys : List Scope → List (List String)
all_keys [] = []
all_keys (scope ∷ scopes) = keys scope ∷ all_keys scopes

abbrev pub issue_of : Diagnostic → Issue
issue_of d = (d.code, d.message, d.span)

abbrev pub issues : List Diagnostic → List Issue
issues [] = []
issues (d ∷ ds) = issue_of d ∷ issues ds

pub data Tells {A : Type 0} (old : List Diagnostic) (env : List (List String)) (is : List Issue)
    : Option (A × LowerCtx) → Type 0 where
  stops : Tells old env is none
  tells :
      {x : A} {q : LowerCtx}
      → (all_keys q.scopes ≡ env)
      → (issues q.diagnostics ≡ issues old ++ is)
      → Tells old env is (some (x, q))

after :
    {A : Type 0} {old new : List Diagnostic} {env : List (List String)} (is js : List Issue)
    {r : Option (A × LowerCtx)}
    → (issues new ≡ issues old ++ is)
    → Tells new env js r
    → Tells old env (is ++ js) r
after is js e stops = stops
after {old} is js e (tells s d) =
    tells s (d ∙ ap (λ l. l ++ js) e ∙ List.append_assoc (issues old) is js)

pub and_then :
    {A B : Type 0} {old : List Diagnostic} {env1 env2 : List (List String)} {is js : List Issue}
    {f : A → M B} {r : Option (A × LowerCtx)}
    → Tells old env1 is r
    → ((x : A) (q : LowerCtx) → (all_keys q.scopes ≡ env1) → Tells q.diagnostics env2 js (f x q))
    → Tells old env2 (is ++ js) (elim r [ none ↦ none | some (x, d) ↦ f x d ])
and_then stops g = stops
and_then {is} {js} (tells {x} {q} s d) g = after is js d (g x q s)

-- A last step that reports nothing.
pub and_last :
    {A B : Type 0} {old : List Diagnostic} {env1 env2 : List (List String)} {is : List Issue}
    {f : A → M B} {r : Option (A × LowerCtx)}
    → Tells old env1 is r
    → ((x : A) (q : LowerCtx) → (all_keys q.scopes ≡ env1) → Tells q.diagnostics env2 [] (f x q))
    → Tells old env2 is (elim r [ none ↦ none | some (x, d) ↦ f x d ])
and_last {old} {env2} {is} {f} {r} t g =
    subst (λ js. Tells old env2 js (elim r [ none ↦ none | some (x, d) ↦ f x d ]))
      (List.append-nil is) (and_then t g)

-- What is known of the value of a step that returns.
pub data Yields {A : Type 0} (P : A → Type 0) : Option (A × LowerCtx) → Type 0 where
  fails : Yields P none
  yields : {x : A} {q : LowerCtx} → P x → Yields P (some (x, q))

pub Yields-after :
    {A B : Type 0} {P : A → Type 0} {Q : B → Type 0} {f : A → M B} {r : Option (A × LowerCtx)}
    → Yields P r
    → ((x : A) (q : LowerCtx) → P x → Yields Q (f x q))
    → Yields Q (elim r [ none ↦ none | some (x, d) ↦ f x d ])
Yields-after fails g = fails
Yields-after (yields {x} {q} p) g = g x q p

pub Yields-any : {A : Type 0} (r : Option (A × LowerCtx)) → Yields (λ _. Unit {0}) r
Yields-any none = fails
Yields-any (some (x, q)) = yields tt

pub and_given :
    {A B : Type 0} {old : List Diagnostic} {env1 env2 : List (List String)} {is js : List Issue}
    {P : A → Type 0} {f : A → M B} {r : Option (A × LowerCtx)}
    → Tells old env1 is r
    → Yields P r
    → ((x : A) (q : LowerCtx)
        → (all_keys q.scopes ≡ env1)
        → P x
        → Tells q.diagnostics env2 js (f x q))
    → Tells old env2 (is ++ js) (elim r [ none ↦ none | some (x, d) ↦ f x d ])
and_given stops y g = stops
and_given {is} {js} (tells {x} {q} s d) (yields p) g = after is js d (g x q s p)

-- A step that returns has the diagnostics that it tells.
pub told :
    {A : Type 0} {old : List Diagnostic} {env : List (List String)} {is : List Issue} {x : A}
    {q : LowerCtx} (r : Option (A × LowerCtx))
    → Tells old env is r
    → r ≡ some (x, q)
    → issues q.diagnostics ≡ issues old ++ is
told r stops e = absurd (cc e)
told {q} r (tells {q = p} s d) e =
    let same : p ≡ q = cc e in ap (λ (c : LowerCtx). issues c.diagnostics) (sym same) ∙ d

pub returned :
    {A : Type 0} {q : LowerCtx} {env : List (List String)} {x : A}
    → (all_keys q.scopes ≡ env)
    → Tells q.diagnostics env [] (some (x, q))
returned {q} s = tells s (sym (List.append-nil (issues q.diagnostics)))

pub issues-snoc :
    (ds : List Diagnostic) (d : Diagnostic) → issues (ds ++ d ∷ []) ≡ issues ds ++ issue_of d ∷ []
issues-snoc [] d = refl
issues-snoc (x ∷ ds) d = ap (λ l. issue_of x ∷ l) (issues-snoc ds d)

pub has_name-scope_get :
    (name : String) (scope : Scope)
    → has_name name (keys scope) ≡ elim (scope_get name scope) [ none ↦ false | some _ ↦ true ]
unfolding scope_get has_name
has_name-scope_get name [] = refl
has_name-scope_get name ((key, id) ∷ scope) = elim (Bool-cases (str_eq key name)) [
  | inl e ↦ rw (e, scope_get) refl
  | inr e ↦ rw (e, scope_get) (has_name-scope_get name scope)
]

pub in_scope-find_name :
    (name : String) (scopes : List Scope)
    → in_scope name (all_keys scopes)
      ≡ elim (find_name name scopes) [ none ↦ false | some _ ↦ true ]
unfolding find_name in_scope
in_scope-find_name name [] = refl
in_scope-find_name name (scope ∷ scopes) = elim (Option-cases (scope_get name scope)) [
  | inl e ↦ ground (arith, e, has_name-scope_get name scope, in_scope-find_name name scopes)
  | inr (i, e) ↦ ground (arith, e, has_name-scope_get name scope)
]
