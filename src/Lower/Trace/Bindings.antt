-- ===== src/Lower/Trace/Bindings.antt =====
-- The steps of lower.rs on names: what each leaves in the arena and in the scopes.
use asatsuyu.Base.{ℕ, ◌≡◌, ◌∙◌, refl, Bool, false, Option, none, some, List, [], ◌∷◌, ◌++◌, length}
use asatsuyu.Syntax.Diagnostic.{Diagnostic}
use asatsuyu.Hir.{DefKind, DefData}
use asatsuyu.Ast.{Ident}
use asatsuyu.Lower.Context.{Scope, LowerCtx, find_name, push, pop}
use asatsuyu.Lower.Exprs.{bind_local, resolve_or_report, or_placeholder}
use asatsuyu.Lower.Modules.{bind_module}
use asatsuyu.Lower.ReadBack.{name_at}
use asatsuyu.Lower.Trace.{
  Ready, Kept-here, Good, returns, from, seq, Later, Later-Kept, Kept-alloc, entry, alloc-ident,
  alloc-name, Stands, ident_at-Later, name_at-Extends, Named, find_name-named,
}
use asatsuyu.Lower.Trace.Defining.{define_local-Good, define_module_level-Good}

-- A new definition that is bound stands for its name.
module _ (kind : DefKind) (c : LowerCtx) (outer : List Scope) (r : Ready outer c) where
  pub bind_local-Good :
      (is_mutable : Bool) (name : Ident)
      → Good c outer (Stands name) (bind_local kind is_mutable name c)
  unfolding bind_local
  bind_local-Good is_mutable name =
      let d = entry kind is_mutable name in
      let k = Kept-alloc {o = c} d r in
      let here = alloc-ident c.symbol_table kind is_mutable name in
      let c1 : LowerCtx = record c { symbol_table = c.symbol_table ++ d ∷ [] } in
      from k (
        seq
          (define_local-Good name (length c.symbol_table) c1 outer k.ready
            (alloc-name c.symbol_table kind is_mutable name))
          (λ _ q kq _.
            returns (Kept-here kq.ready)
              (Later-Kept kq (ident_at-Later name (length c.symbol_table) c1 here))))

  pub bind_module-Good :
      (name : Ident)
      → Good c outer
          (λ id q. Stands name id q × (id ≡ length c.symbol_table))
          (bind_module kind name c)
  unfolding bind_module
  bind_module-Good name =
      let d = entry kind false name in
      let k = Kept-alloc {o = c} d r in
      let here = alloc-ident c.symbol_table kind false name in
      let c1 : LowerCtx = record c { symbol_table = c.symbol_table ++ d ∷ [] } in
      from k (
        seq
          (define_module_level-Good name (length c.symbol_table) c1 outer k.ready
            (alloc-name c.symbol_table kind false name))
          (λ _ q kq _.
            returns (Kept-here kq.ready)
              (Later-Kept kq (ident_at-Later name (length c.symbol_table) c1 here), refl)))

-- An identifier has a name in the arena.
abbrev pub Names : Ident → ℕ → LowerCtx → Type 0
Names name id = Later (λ t. name_at t id ≡ some name.name)

name_at-Later :
    (name : Ident) (id : ℕ) (c : LowerCtx)
    → name_at c.symbol_table id ≡ some name.name
    → Names name id c
name_at-Later name id c h t ext = name_at-Extends c.symbol_table t ext id name.name h

module _ (kind : DefKind) (unresolved : Ident → Diagnostic) (name : Ident) (c : LowerCtx)
    (outer : List Scope) (r : Ready outer c) where
  or_placeholder-Good :
      (found : Option ℕ)
      → find_name name.name c.scopes ≡ found
      → Good c outer (Names name) (or_placeholder kind unresolved name found c)
  or_placeholder-Good (some id) e =
      returns (Kept-here r)
        (name_at-Later name id c (find_name-named c.symbol_table name.name c.scopes id r.named e))
  or_placeholder-Good none e =
      let d = entry kind false name in
      let k = Kept-alloc {o = c} d r in
      let c1 : LowerCtx = record c {
        symbol_table = c.symbol_table ++ d ∷ [];
        diagnostics = c.diagnostics ++ unresolved name ∷ [];
      } in
      returns
        (record {
          extends = k.extends;
          ready = record {
            inner = k.ready.inner;
            shape = k.ready.shape;
            named = k.ready.named;
            concat = k.ready.concat;
          };
        })
        (name_at-Later name (length c.symbol_table) c1 (alloc-name c.symbol_table kind false name))

  pub resolve_or_report-Good : Good c outer (Names name) (resolve_or_report kind unresolved name c)
  unfolding resolve_or_report
  resolve_or_report-Good = or_placeholder-Good (find_name name.name c.scopes) refl

-- A scope that is entered, and left again.
pub push-Good :
    (c : LowerCtx) (outer : List Scope) → Ready outer c → Good c c.scopes (λ _ _. Unit {0}) (push c)
push-Good c outer r =
    returns
      (record {
        extends = λ i d e. e;
        ready = record { inner = []; shape = refl; named = (tt, r.named); concat = r.concat };
      })
      tt

module _ (t : List DefData) (ds : List Diagnostic) (k : ℕ) (inner : Scope) (outer : List Scope)
    (concat : name_at t k ≡ some "string_concat") where
  abbrev left : List Scope → LowerCtx
  left scopes = record { symbol_table = t; diagnostics = ds; scopes = scopes; string_concat_id = k }

  left-Good :
      (here : Scope) (back scopes : List Scope)
      → scopes ≡ here ∷ back
      → back ≡ inner ∷ outer
      → Named t scopes
      → Good (left scopes) outer (λ _ q. q.scopes ≡ back) (pop (left scopes))
  left-Good here back [] e back_is n = absurd (cc e)
  left-Good here back (scope ∷ rest) e back_is (_, ns) =
      let same : rest ≡ back = cc e in
      returns
        (record {
          extends = λ i d e2. e2;
          ready = record { inner = inner; shape = same ∙ back_is; named = ns; concat = concat };
        })
        same

pub pop-Good :
    (c : LowerCtx) (outer : List Scope)
    → Ready outer c
    → (q : LowerCtx) → Ready c.scopes q
    → Good q outer (λ _ p. p.scopes ≡ c.scopes) (pop q)
pop-Good c outer r q rq =
    left-Good q.symbol_table q.diagnostics q.string_concat_id r.inner outer rq.concat rq.inner
      c.scopes q.scopes rq.shape r.shape rq.named
