-- ===== src/Lower/Trace/Definitions.antt =====
-- The functions and the custom types that `register_top_level` enters, and the order of their
-- identifiers.
use asatsuyu.Base.{
  ℕ, zero, suc, ◌≡◌, ◌≤◌, ◌<◌, refl, some, List, [], ◌∷◌, length, get_elem?, arith, any, false,
  ◌==◌, Option-cases, inl, inr,
}
use asatsuyu.Hir.{DefKind, DefData}
use asatsuyu.Ast.{Ident, FnDef, CustomType, Definition}
use asatsuyu.Purity.Check.Verdict.{Distinct}
use asatsuyu.Lower.Context.{Scope, LowerCtx}
use asatsuyu.Lower.Modules.{variants_of, TypeEntry, register_top_level}
use asatsuyu.Lower.ReadBack.{ident_at}
use asatsuyu.Lower.Trace.{Extends, Ready, Kept-here, Good, returns, seq, Later, Later-Kept}
use asatsuyu.Lower.Trace.Bindings.{bind_module-Good}
use asatsuyu.Lower.Trace.Functions.{FnEntries, second}
use asatsuyu.Lower.Trace.Types.{StandsFor}
use asatsuyu.Lower.Trace.Toplevel.{register_variants-Good}

abbrev pub functions_of : List Definition → List FnDef
functions_of [] = []
functions_of (Definition.function f ∷ ds) = f ∷ functions_of ds
functions_of (Definition.custom_type _ ∷ ds) = functions_of ds

abbrev pub types_of : List Definition → List CustomType
types_of [] = []
types_of (Definition.function _ ∷ ds) = types_of ds
types_of (Definition.custom_type ct ∷ ds) = ct ∷ types_of ds

abbrev pub TypeEntries : List CustomType → List TypeEntry → List DefData → Type 0
TypeEntries [] [] t = Unit
TypeEntries (ct ∷ cts) (entry ∷ entries) t = StandsFor t ct entry × TypeEntries cts entries t
TypeEntries _ _ t = ⊥

-- Each number is above the one before it, and the first is at least `n`.
abbrev pub Rising : ℕ → List ℕ → Type 0
Rising n [] = Unit
Rising n (i ∷ is) = (n ≤ i) × Rising (suc i) is

Rising-≤ : (m n : ℕ) (is : List ℕ) → m ≤ n → Rising n is → Rising m is
Rising-≤ m n [] h r = tt
Rising-≤ m n (i ∷ is) h (r, rs) = (omega arith, rs)

Rising-any : (n m : ℕ) (is : List ℕ) → m < n → Rising n is → any (λ y. m == y) is ≡ false
Rising-any n m [] h r = ground arith
Rising-any n m (i ∷ is) h (r, rs) = ground (arith, Rising-any (suc i) m is (omega arith) rs)

pub Rising-Distinct : (n : ℕ) (is : List ℕ) → Rising n is → Distinct is
Rising-Distinct n [] r = tt
Rising-Distinct n (i ∷ is) (r, rs) =
    (Rising-any (suc i) i is (omega arith) rs, Rising-Distinct (suc i) is rs)

get_elem?-length : (t : List DefData) (i : ℕ) (d : DefData) → get_elem? t i ≡ some d → i < length t
get_elem?-length [] i d h = absurd (cc h)
get_elem?-length (x ∷ t) zero d h = omega arith
get_elem?-length (x ∷ t) (suc i) d h = omega (arith, get_elem?-length t i d h)

ident_at-length :
    (t : List DefData) (id : ℕ) (name : Ident) → ident_at t id ≡ some name → id < length t
ident_at-length t id name h = elim (Option-cases (get_elem? t id)) [
  | inl e ↦ absurd (cc (rw (e, ident_at) at h))
  | inr (d, e) ↦ get_elem?-length t id d e
]

Extends-tail :
    (x : DefData) (t u : List DefData)
    → Extends (x ∷ t) u
    → (y : DefData) × (rest : List DefData) × (u ≡ y ∷ rest) × Extends t rest
Extends-tail x t [] h = absurd (cc (h zero x refl))
Extends-tail x t (y ∷ rest) h = (y, rest, refl, λ i d e. h (suc i) d e)

length-Extends : (t u : List DefData) → Extends t u → length t ≤ length u
length-Extends [] u h = omega arith
length-Extends (x ∷ t) u h =
    let (y, rest, e, tail) = Extends-tail x t u h in
    rw e (omega (arith, length-Extends t rest tail))

-- What the registration of definitions leaves.
pub record Registered (ds : List Definition) (n : ℕ) (entries : List (FnDef × ℕ) × List TypeEntry)
    (q : LowerCtx) : Type 0 where
  pub functions : Later (FnEntries (functions_of ds) entries.0) q
  pub types : Later (TypeEntries (types_of ds) entries.1) q
  pub rising : Rising n (second entries.0)

pub register_top_level-Good :
    (ds : List Definition) (c : LowerCtx) (outer : List Scope)
    → Ready outer c
    → Good c outer (Registered ds (length c.symbol_table)) (register_top_level ds c)
unfolding register_top_level
register_top_level-Good [] c outer r =
    returns (Kept-here r) (record { functions = λ t e. tt; types = λ t e. tt; rising = tt })
register_top_level-Good (Definition.function f ∷ ds) c outer r =
    seq (bind_module-Good DefKind.function c outer r f.name) (λ id q1 k1 h1.
      seq (register_top_level-Good ds q1 outer k1.ready) (λ entries q2 k2 h2.
        let past = ident_at-length q1.symbol_table id f.name (h1.0 q1.symbol_table (λ i d e. e)) in
        let below : length c.symbol_table ≤ id = omega (arith, h1.1) in
        returns {x = ((f, id) ∷ entries.0, entries.1)} (Kept-here k2.ready) (record {
          functions = λ t e. (refl, Later-Kept k2 h1.0 t e, h2.functions t e);
          types = h2.types;
          rising = (
            below,
            Rising-≤ (suc id) (length q1.symbol_table) (second entries.0) (omega arith) h2.rising,
          );
        })))
register_top_level-Good (Definition.custom_type ct ∷ ds) c outer r =
    seq (bind_module-Good DefKind.type_name c outer r ct.name) (λ id q1 k1 h1.
      seq (register_variants-Good (variants_of ct.body) q1 outer k1.ready) (λ ids q2 k2 h2.
        seq (register_top_level-Good ds q2 outer k2.ready) (λ entries q3 k3 h3.
          let name = Later-Kept k3 (Later-Kept k2 h1.0) in
          let longer = length-Extends q1.symbol_table q2.symbol_table k2.extends in
          let first = length-Extends c.symbol_table q1.symbol_table k1.extends in
          let entry : TypeEntry = record { custom_type = ct; def_id = id; ctor_ids = ids } in
          returns {x = (entries.0, entry ∷ entries.1)} (Kept-here k3.ready) (record {
            functions = h3.functions;
            types = λ t e. ((refl, name t e, Later-Kept k3 h2 t e), h3.types t e);
            rising =
                Rising-≤ (length c.symbol_table) (length q2.symbol_table) (second entries.0)
                  (omega arith) h3.rising;
          }))))
