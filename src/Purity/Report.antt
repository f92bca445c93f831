-- ===== src/Purity/Report.antt =====
-- The report of `analyze` against the bodies of a module.
use asatsuyu.Base.{
  ℕ, zero, suc, ◌≡◌, refl, ◌↔◌, true, false, not, ◌&&◌, none, some, List, [], ◌∷◌, map, get_elem?,
  length, arith, Option-cases, Bool-cases, inl, inr,
}
use asatsuyu.Hir.{HirModule, HirFnDef}
use asatsuyu.Purity.{FunctionPurity, is_effectful}
use asatsuyu.Purity.Scan.{anywhere, scope_of, entry_of}
use asatsuyu.Purity.Scan.Sites.{calm, effectful-entry_of}
use asatsuyu.Purity.Effects.Direct.{body_iff}
use asatsuyu.Purity.Propagate.{entries, call_edges, analyze}
use asatsuyu.Purity.Propagate.Relax.{effectful_at}
use asatsuyu.Purity.Propagate.CallGraph.{ReachesEffect, own_effect, by_call, propagate_lem}
use asatsuyu.Purity.Effects.Graph.{OwnEffect, CallsByName, get_elem?-below, edge_of, of_edge}

effectful_at-map :
    {A : Type 0} (g : A → FunctionPurity) (xs : List A) (i : ℕ)
    → effectful_at (map g xs) i
      ≡ elim (get_elem? xs i) [ none ↦ false | some x ↦ is_effectful (g x) ]
effectful_at-map g [] i = refl
effectful_at-map g (x ∷ xs) zero = refl
effectful_at-map g (x ∷ xs) (suc i) = effectful_at-map g xs i

length-map {ℓ κ} :
    {A : Type ℓ} {B : Type κ} (f : A → B) (xs : List A) → length (map f xs) ≡ length xs
length-map f [] = refl
length-map f (x ∷ xs) = omega (arith, length-map f xs)

-- The function at a position is `async`, has an effect in its body, or calls by name a function of
-- the module of which this holds. A function that is passed as a value is not called by name.
pub data MayPerform (m : HirModule) : ℕ → Type 0 where
  in_body :
      {v : ℕ} (f : HirFnDef) → get_elem? m.functions v ≡ some f → OwnEffect m f → MayPerform m v
  in_callee : {u v : ℕ} → MayPerform m u → CallsByName m v u → MayPerform m v

module _ (m : HirModule) where
  own_iff :
      (v : ℕ) (f : HirFnDef)
      → get_elem? m.functions v ≡ some f
      → effectful_at (entries m) v ≡ not (not f.is_async && calm (scope_of m) anywhere f.body)
  own_iff v f e = ground (
    arith,
    e,
    effectful_at-map (entry_of (scope_of m)) m.functions v,
    effectful-entry_of (scope_of m) f,
  )

  of_own :
      (f : HirFnDef) → OwnEffect m f → (not f.is_async && calm (scope_of m) anywhere f.body) ≡ false
  of_own f (inl e) = ground (arith, e)
  of_own f (inr s) = let c = (body_iff m f.body).1 s in ground (arith, c)

  to_own :
      (f : HirFnDef) → (not f.is_async && calm (scope_of m) anywhere f.body) ≡ false → OwnEffect m f
  to_own f h = elim (Bool-cases f.is_async) [
    | inl e ↦ inl e
    | inr e ↦ inr ((body_iff m f.body).0 (ground (arith, e, h)))
  ]

  -- Before propagation the entry of a function is effectful exactly if the function is `async` or
  -- an expression that is evaluated in its body counts as an effect: `try`, `await`, a read of an
  -- attribute of a Python module, a call of `println`, of an import, a parameter or a local
  -- binding, of a member of an import, a parameter, a local binding or a function, or of anything
  -- that is no name and no member of one.
  pub is_effectful-entry_of :
      (f : HirFnDef) → (is_effectful (entry_of (scope_of m) f) ≡ true) ↔ OwnEffect m f
  is_effectful-entry_of f =
      let own = effectful-entry_of (scope_of m) f in
      (λ h. to_own f (ground (arith, own, h)), λ o. ground (arith, own, of_own f o))

  to_report : {v : ℕ} → MayPerform m v → ReachesEffect (entries m) (call_edges m) v
  to_report (in_body {v} f e o) = own_effect (ground (arith, own_iff v f e, of_own f o))
  to_report (in_callee {u} {v} r c) =
      let lt = get_elem?-below m.functions v c.0 c.2 in
      by_call (to_report r) (edge_of m v u c)
        (omega (arith, lt, length-map (entry_of (scope_of m)) m.functions))

  of_report : {v : ℕ} → ReachesEffect (entries m) (call_edges m) v → MayPerform m v
  of_report (own_effect {v} h) = elim (Option-cases (get_elem? m.functions v)) [
    | inl e ↦ absurd (ground (arith, e, effectful_at-map (entry_of (scope_of m)) m.functions v))
    | inr (f, e) ↦ in_body f e (to_own f (ground (arith, own_iff v f e, h)))
  ]
  of_report (by_call {u} {v} r c lt) = in_callee (of_report r) (of_edge m v u c)

-- The analysis ends with a report that has one entry per function, and an entry is effectful
-- exactly if its function is `async`, has in its body an expression that counts as an effect, or
-- calls by name a function of the module of which this holds; where functions share a definition,
-- the call is of the last of them. A function that is passed as a value is not called by name,
-- and adds nothing.
pub analyze_lem :
    (m : HirModule)
    → (report : List FunctionPurity) × (analyze m ≡ some report)
      × (length report ≡ length m.functions)
      × ((v : ℕ) → (effectful_at report v ≡ true) ↔ MayPerform m v)
unfolding analyze
analyze_lem m =
    let (report, e, size, iff) = propagate_lem (entries m) (call_edges m) in
    (
      report,
      e,
      ground (arith, size, length-map (entry_of (scope_of m)) m.functions),
      λ v. ((λ h. of_report m ((iff v).0 h)), λ p. (iff v).1 (to_report m p)),
    )
