-- ===== src/Lower/Trace.antt =====
-- What a step of the lowering keeps: entries of the arena stay, every name in scope belongs to the
-- entry that it is bound to, and the scopes around the innermost one stay.
pub mod Defining
pub mod Bindings
pub mod Patterns
pub mod Calls
pub mod Expressions
pub mod Functions
pub mod Types
pub mod Toplevel
pub mod Definitions
pub mod Whole
use mathlib.Core.Path.{subst}
use text.Mathlib.Text.{◌==◌ as str_eq}
use text.Mathlib.TextEquality.{eq_iff}
use asatsuyu.Base.{
  ℕ, zero, suc, ◌≡◌, refl, ap, sym, Bool, Option, none, some, List, [], ◌∷◌, ◌++◌, length,
  get_elem?, String, Bool-cases, Option-cases, inl, inr,
}
use asatsuyu.Hir.{DefKind, DefData}
use asatsuyu.Ast.{Ident}
use asatsuyu.Syntax.Span.{Span}
use asatsuyu.Syntax.Diagnostic.{Diagnostic}
use asatsuyu.Lower.Context.{
  Scope, scope_get, find_name, LowerCtx, M, define_local, define_module_level, define_or_report,
  report_previous, duplicate_binding, duplicate_definition,
}
use asatsuyu.Lower.ReadBack.{name_at, ident_at}

abbrev pub Extends : List DefData → List DefData → Type 0
Extends t u = (i : ℕ) (d : DefData) → get_elem? t i ≡ some d → get_elem? u i ≡ some d

module _ (t u : List DefData) (ext : Extends t u) where
  pub name_at-Extends :
      (id : ℕ) (name : String) → name_at t id ≡ some name → name_at u id ≡ some name
  name_at-Extends id name h = elim (Option-cases (get_elem? t id)) [
    | inl e ↦ absurd (cc (rw (e, name_at) at h))
    | inr (d, e) ↦ rw (ext id d e, name_at) (rw (e, name_at) at h)
  ]

  pub ident_at-Extends :
      (id : ℕ) (name : Ident) → ident_at t id ≡ some name → ident_at u id ≡ some name
  ident_at-Extends id name h = elim (Option-cases (get_elem? t id)) [
    | inl e ↦ absurd (cc (rw (e, ident_at) at h))
    | inr (d, e) ↦ rw (ext id d e, ident_at) (rw (e, ident_at) at h)
  ]

pub Extends-alloc : (t : List DefData) (d : DefData) → Extends t (t ++ d ∷ [])
Extends-alloc (x ∷ t) d zero y h = h
Extends-alloc (x ∷ t) d (suc i) y h = Extends-alloc t d i y h
Extends-alloc [] d i y h = absurd (cc h)

pub get_elem?-alloc : (t : List DefData) (d : DefData) → get_elem? (t ++ d ∷ []) (length t) ≡ some d
get_elem?-alloc [] d = refl
get_elem?-alloc (x ∷ t) d = get_elem?-alloc t d

-- The entries of a scope, and of the scopes, are bound to definitions of their names.
abbrev pub NamedScope : List DefData → Scope → Type 0
NamedScope t [] = Unit
NamedScope t ((name, id) ∷ scope) = (name_at t id ≡ some name) × NamedScope t scope

abbrev pub Named : List DefData → List Scope → Type 0
Named t [] = Unit
Named t (scope ∷ scopes) = NamedScope t scope × Named t scopes

module _ (t u : List DefData) (ext : Extends t u) where
  NamedScope-Extends : (scope : Scope) → NamedScope t scope → NamedScope u scope
  NamedScope-Extends [] h = tt
  NamedScope-Extends ((name, id) ∷ scope) (h, hs) =
      (name_at-Extends t u ext id name h, NamedScope-Extends scope hs)

  pub Named-Extends : (scopes : List Scope) → Named t scopes → Named u scopes
  Named-Extends [] h = tt
  Named-Extends (scope ∷ scopes) (h, hs) = (NamedScope-Extends scope h, Named-Extends scopes hs)

pub scope_get-named :
    (t : List DefData) (name : String) (scope : Scope) (id : ℕ)
    → NamedScope t scope
    → scope_get name scope ≡ some id
    → name_at t id ≡ some name
unfolding scope_get
scope_get-named t name [] id n h = absurd (cc h)
scope_get-named t name ((key, i) ∷ scope) id (n, ns) h = elim (Bool-cases (str_eq key name)) [
  | inl e ↦
      let same : i ≡ id = cc (rw (e, scope_get) at h) in
      let key_is : key ≡ name = (eq_iff key name).0 e in
      cc (ap (name_at t) (sym same), n, ap (λ (s : String). some s) key_is)
  | inr e ↦ scope_get-named t name scope id ns (rw (e, scope_get) at h)
]

pub find_name-named :
    (t : List DefData) (name : String) (scopes : List Scope) (id : ℕ)
    → Named t scopes
    → find_name name scopes ≡ some id
    → name_at t id ≡ some name
unfolding find_name
find_name-named t name [] id n h = absurd (cc h)
find_name-named t name (scope ∷ scopes) id (n, ns) h = elim (Option-cases (scope_get name scope)) [
  | inl e ↦ find_name-named t name scopes id ns (rw (e, find_name) at h)
  | inr (i, e) ↦
      let same : i ≡ id = cc (rw (e, find_name) at h) in
      cc (scope_get-named t name scope i n e, ap (name_at t) (sym same))
]

-- The context inside the scopes `outer`.
pub record Ready (outer : List Scope) (c : LowerCtx) : Type 0 where
  pub inner : Scope
  pub shape : c.scopes ≡ inner ∷ outer
  pub named : Named c.symbol_table c.scopes
  pub concat : name_at c.symbol_table c.string_concat_id ≡ some "string_concat"

pub record Kept (o : LowerCtx) (outer : List Scope) (c : LowerCtx) : Type 0 where
  pub extends : Extends o.symbol_table c.symbol_table
  pub ready : Ready outer c

pub Kept-here : {o : LowerCtx} {outer : List Scope} → Ready outer o → Kept o outer o
Kept-here r = record { extends = λ i d h. h; ready = r }

-- A step from `o` that does not fail, ends inside the scopes `outer`, and leaves what `Q` says.
pub data Good {A : Type 0} (o : LowerCtx) (outer : List Scope) (Q : A → LowerCtx → Type 0)
    : Option (A × LowerCtx) → Type 0 where
  returns : {x : A} {c : LowerCtx} → Kept o outer c → Q x c → Good o outer Q (some (x, c))

pub from :
    {A : Type 0} {o p : LowerCtx} {mid outer : List Scope} {Q : A → LowerCtx → Type 0}
    {r : Option (A × LowerCtx)}
    → Kept o mid p
    → Good p outer Q r
    → Good o outer Q r
from k (returns k2 h2) =
    returns (record { extends = λ i d e. k2.extends i d (k.extends i d e); ready = k2.ready }) h2

pub seq :
    {A B : Type 0} {o : LowerCtx} {mid outer : List Scope} {R : A → LowerCtx → Type 0}
    {Q : B → LowerCtx → Type 0} {f : A → M B} {r : Option (A × LowerCtx)}
    → Good o mid R r
    → ((x : A) (q : LowerCtx) → Kept o mid q → R x q → Good q outer Q (f x q))
    → Good o outer Q (elim r [ none ↦ none | some (x, d) ↦ f x d ])
seq (returns {x} {c} k h) g = from k (g x c k h)

-- Of what is said of an arena, what holds of every later one.
abbrev pub Later : (List DefData → Type 0) → LowerCtx → Type 0
Later P c = (t : List DefData) → Extends c.symbol_table t → P t

pub Later-Kept :
    {P : List DefData → Type 0} {o c : LowerCtx} {outer : List Scope}
    → Kept o outer c
    → Later P o
    → Later P c
Later-Kept k h t e = h t (λ i d p. e i d (k.extends i d p))

-- A new entry, and what its identifier stands for.
pub Kept-alloc :
    {o : LowerCtx} {outer : List Scope} (d : DefData)
    → Ready outer o
    → Kept o outer (record o { symbol_table = o.symbol_table ++ d ∷ [] })
Kept-alloc {o} d r =
    let ext = Extends-alloc o.symbol_table d in
    let wider = o.symbol_table ++ d ∷ [] in
    record {
      extends = ext;
      ready = record {
        inner = r.inner;
        shape = r.shape;
        named = Named-Extends o.symbol_table wider ext o.scopes r.named;
        concat =
            name_at-Extends o.symbol_table wider ext o.string_concat_id "string_concat" r.concat;
      };
    }

abbrev pub entry : DefKind → Bool → Ident → DefData
entry kind is_mutable name = record {
  name = name.name;
  kind = kind;
  is_mutable = is_mutable;
  span = name.span;
}

pub alloc-ident :
    (t : List DefData) (kind : DefKind) (is_mutable : Bool) (name : Ident)
    → ident_at (t ++ entry kind is_mutable name ∷ []) (length t) ≡ some name
alloc-ident t kind is_mutable name =
    rw (get_elem?-alloc t (entry kind is_mutable name), ident_at) refl

pub alloc-name :
    (t : List DefData) (kind : DefKind) (is_mutable : Bool) (name : Ident)
    → name_at (t ++ entry kind is_mutable name ∷ []) (length t) ≡ some name.name
alloc-name t kind is_mutable name =
    rw (get_elem?-alloc t (entry kind is_mutable name), name_at) refl

-- An identifier stands for a name.
abbrev pub Stands : Ident → ℕ → LowerCtx → Type 0
Stands name id = Later (λ t. ident_at t id ≡ some name)

pub ident_at-Later :
    (name : Ident) (id : ℕ) (c : LowerCtx)
    → ident_at c.symbol_table id ≡ some name
    → Stands name id c
ident_at-Later name id c h t ext = ident_at-Extends c.symbol_table t ext id name h
