-- ===== src/Lower/Trace/Functions.antt =====
-- Functions of lower.rs: their parameters and bodies read back, and the scopes are left as they were.
use mathlib.Core.Path.{subst}
use asatsuyu.Base.{ℕ, ◌≡◌, refl, sym, Option, some, List, [], ◌∷◌, map, ◌>>=◌}
use asatsuyu.Hir.{DefData, HirFnDef}
use asatsuyu.Ast.{FnDef}
use asatsuyu.Purity.Check.Ids.{fn_ids}
use asatsuyu.Lower.Context.{Scope, LowerCtx}
use asatsuyu.Lower.Modules.{lowered_fn, lower_fn_def, lower_functions}
use asatsuyu.Lower.Desugar.{plain_params, plain_type_option, plain_expr}
use asatsuyu.Lower.ReadBack.{ident_at, read_params, read_type_option, read_expr}
use asatsuyu.Lower.Trace.{Ready, Kept-here, Good, returns, seq, Later, Later-Kept, Stands}
use asatsuyu.Lower.Trace.Bindings.{push-Good, pop-Good}
use asatsuyu.Lower.Trace.Patterns.{Reads, lower_params-Good, read-lower_type_option}
use asatsuyu.Lower.Trace.Expressions.{lower_expr-Good}

-- The function with its desugared parts.
unfoldable pub plain_fn : FnDef → FnDef
plain_fn f = record f {
  params = plain_params f.params;
  return_type = plain_type_option f.return_type;
  body = plain_expr f.body;
}

-- The function that a lowered one stands for.
unfoldable pub read_fn : List DefData → HirFnDef → Option FnDef
read_fn t h = do
  name ← ident_at t h.def_id
  params ← read_params t h.params
  body ← read_expr t h.body
  some (record {
    name = name;
    visibility = h.visibility;
    is_async = h.is_async;
    pure_span = h.pure_span;
    params = params;
    return_type = read_type_option h.return_type;
    body = body;
    span = h.span;
  })

unfoldable pub read_fns : List DefData → List HirFnDef → Option (List FnDef)
unfolding read_fn
read_fns t [] = some []
read_fns t (h ∷ hs) = do f ← read_fn t h; fs ← read_fns t hs; some (f ∷ fs)

-- What a lowered function has of the given one.
pub record Lowered (f : FnDef) (id : ℕ) (c : LowerCtx) (h : HirFnDef) (q : LowerCtx) : Type 0 where
  pub same_id : h.def_id ≡ id
  pub reads : Reads read_fn (plain_fn f) h q
  pub same_scopes : q.scopes ≡ c.scopes

pub lower_fn_def-Good :
    (f : FnDef) (id : ℕ) (c : LowerCtx) (outer : List Scope)
    → Ready outer c
    → Stands f.name id c
    → Good c outer (Lowered f id c) (lower_fn_def f id c)
unfolding lower_fn_def read_fn plain_fn
lower_fn_def-Good f id c outer r stands = seq (push-Good c outer r) (λ _ q1 k1 _.
    seq (lower_params-Good f.params q1 c.scopes k1.ready) (λ hp q2 k2 h2.
      seq (lower_expr-Good f.body q2 c.scopes k2.ready) (λ hb q3 k3 h3.
        seq (pop-Good c outer r q3 k3.ready) (λ _ q4 k4 scopes.
          returns {x = lowered_fn f id hp hb} (Kept-here k4.ready) (record {
            same_id = refl;
            reads = λ t e.
                let name =
                  Later-Kept k4 (Later-Kept k3 (Later-Kept k2 (Later-Kept k1 stands))) t e in
                let params = Later-Kept k4 (Later-Kept k3 h2) t e in
                rw (name, params, Later-Kept k4 h3 t e, read-lower_type_option f.return_type) refl;
            same_scopes = scopes;
          })))))

-- The entries are those of the functions, and their identifiers stand for the names.
abbrev pub FnEntries : List FnDef → List (FnDef × ℕ) → List DefData → Type 0
FnEntries [] [] t = Unit
FnEntries (f ∷ fs) ((g, id) ∷ entries) t =
    (g ≡ f) × (ident_at t id ≡ some f.name) × FnEntries fs entries t
FnEntries _ _ t = ⊥

abbrev pub second : List (FnDef × ℕ) → List ℕ
second [] = []
second ((_, id) ∷ entries) = id ∷ second entries

pub lower_functions-Good :
    (fs : List FnDef) (entries : List (FnDef × ℕ)) (c : LowerCtx) (outer : List Scope)
    → Ready outer c
    → Later (FnEntries fs entries) c
    → Good c outer
        (λ hs q. Reads read_fns (map plain_fn fs) hs q × (fn_ids hs ≡ second entries))
        (lower_functions entries c)
unfolding lower_functions read_fns
lower_functions-Good [] [] c outer r h = returns (Kept-here r) (λ t e. refl, refl)
lower_functions-Good (f ∷ fs) ((g, id) ∷ entries) c outer r h =
    let same : g ≡ f = (h c.symbol_table (λ i d e. e)).0 in
    subst
      (λ x.
        Good c outer
          (λ hs q. Reads read_fns (map plain_fn (f ∷ fs)) hs q × (fn_ids hs ≡ id ∷ second entries))
          (lower_functions ((x, id) ∷ entries) c))
      (sym same)
      (seq (lower_fn_def-Good f id c outer r (λ t e. (h t e).1)) (λ hf q1 k1 h1.
        seq (lower_functions-Good fs entries q1 outer k1.ready (Later-Kept k1 (λ t e. (h t e).2)))
          (λ hs q2 k2 h2.
            returns {x = hf ∷ hs} (Kept-here k2.ready)
              (λ t e. rw (Later-Kept k2 h1.reads t e, h2.0 t e) refl, rw (h1.same_id, h2.1) refl))))
lower_functions-Good [] (_ ∷ _) c outer r h = elim (h c.symbol_table (λ i d e. e)) [ ]
lower_functions-Good (_ ∷ _) [] c outer r h = elim (h c.symbol_table (λ i d e. e)) [ ]
