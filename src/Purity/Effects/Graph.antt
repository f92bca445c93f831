-- ===== src/Purity/Effects/Graph.antt =====
-- The positions and the edges of the call graph against the functions of a module.
use mathlib.Core.Path.{subst}
use asatsuyu.Base.{
  ℕ, zero, suc, ◌+◌, ◌<◌, ◌≡◌, refl, sym, ◌∙◌, ap, ◌⊎◌, true, ◌==◌, ==_iff, none, some, List, [],
  ◌∷◌, map, get_elem?, length, arith, Option-cases, Bool-cases, inl, inr,
}
use asatsuyu.Syntax.Span.{Span}
use asatsuyu.Hir.{HirModule, HirFnDef}
use asatsuyu.Purity.{FunctionPurity}
use asatsuyu.Purity.Scan.{anywhere, scope_of, entry_of, scan_fn}
use asatsuyu.Purity.Effects.{Some, Effect, CallOf}
use asatsuyu.Purity.Effects.Recorded.{HasIn}
use asatsuyu.Purity.Effects.Called.{callees_iff}
use asatsuyu.Purity.Propagate.{index_from, entries, call_edges}
use asatsuyu.Purity.Propagate.CallGraph.{Calls, site}

-- The function at a position is the last one with the definition.
abbrev pub Absent : List HirFnDef → ℕ → Type 0
Absent [] id = Unit
Absent (f ∷ fs) id = (¬ (f.def_id ≡ id)) × Absent fs id

abbrev pub LastAt : List HirFnDef → ℕ → ℕ → Type 0
LastAt [] id u = ⊥
LastAt (f ∷ fs) id zero = (f.def_id ≡ id) × Absent fs id
LastAt (f ∷ fs) id (suc u) = LastAt fs id u

-- The body at a position holds an effect, or its function is `async`.
abbrev pub OwnEffect : HirModule → HirFnDef → Type 0
OwnEffect m f = (f.is_async ≡ true) ⊎ Some (Effect m) anywhere f.body

-- The body at `caller` calls by name the function at `target`.
abbrev pub CallsByName : HirModule → ℕ → ℕ → Type 0
CallsByName m caller target =
    (f : HirFnDef) × (id : ℕ) × (get_elem? m.functions caller ≡ some f)
    × Some (CallOf m id) anywhere f.body
    × LastAt m.functions id target

pub get_elem?-below :
    (fs : List HirFnDef) (v : ℕ) (f : HirFnDef) → get_elem? fs v ≡ some f → v < length fs
get_elem?-below [] v f h = absurd (cc h)
get_elem?-below (x ∷ fs) zero f h = omega arith
get_elem?-below (x ∷ fs) (suc v) f h = omega (arith, get_elem?-below fs v f h)

module _ (m : HirModule) where
  abbrev made : List HirFnDef → List FunctionPurity
  made = map (entry_of (scope_of m))

  abbrev edges_of : List HirFnDef → List (List (ℕ × Span))
  edges_of = map (λ f. (scan_fn (scope_of m) f).callees)

  made-id : (f : HirFnDef) → (entry_of (scope_of m) f).def_id ≡ f.def_id
  unfolding entry_of
  made-id f = refl

  index-Absent :
      (i : ℕ) (fs : List HirFnDef) (id : ℕ) → Absent fs id → index_from i (made fs) id ≡ none
  unfolding index_from
  index-Absent i [] id h = refl
  index-Absent i (f ∷ fs) id (n, h) = elim (Bool-cases (f.def_id == id)) [
    | inl e ↦ absurd (n ((==_iff f.def_id id).0 e))
    | inr e ↦ ground (arith, e, made-id f, index-Absent (i + 1) fs id h)
  ]

  Absent-index :
      (i : ℕ) (fs : List HirFnDef) (id : ℕ) → index_from i (made fs) id ≡ none → Absent fs id
  unfolding index_from
  Absent-index i [] id h = tt
  Absent-index i (f ∷ fs) id h = elim (Option-cases (index_from (i + 1) (made fs) id)) [
    | inr (u, e) ↦ absurd (ground (arith, e, h))
    | inl e ↦ elim (Bool-cases (f.def_id == id)) [
      | inl s ↦ absurd (ground (arith, e, s, made-id f, h))
      | inr s ↦ (
        λ same. let t = (==_iff f.def_id id).1 same in absurd (cc (s, t)),
        Absent-index (i + 1) fs id e,
      )
    ]
  ]

  index-LastAt :
      (i : ℕ) (fs : List HirFnDef) (id j : ℕ)
      → LastAt fs id j
      → index_from i (made fs) id ≡ some (i + j)
  unfolding index_from
  index-LastAt i [] id j h = absurd h
  index-LastAt i (f ∷ fs) id zero (h, a) =
      let t = (==_iff f.def_id id).1 h in ground (arith, t, made-id f, index-Absent (i + 1) fs id a)
  index-LastAt i (f ∷ fs) id (suc j) h = ground (arith, index-LastAt (i + 1) fs id j h)

  LastAt-index :
      (i : ℕ) (fs : List HirFnDef) (id u : ℕ)
      → index_from i (made fs) id ≡ some u
      → (j : ℕ) × (u ≡ i + j) × LastAt fs id j
  unfolding index_from
  LastAt-index i [] id u h = absurd (cc h)
  LastAt-index i (f ∷ fs) id u h = elim (Option-cases (index_from (i + 1) (made fs) id)) [
    | inr (w, e) ↦
        let (j, p, l) = LastAt-index (i + 1) fs id w e in
        let same : u ≡ w = ground (arith, e, h) in (suc j, omega (arith, p, same), l)
    | inl e ↦ elim (Bool-cases (f.def_id == id)) [
      | inl s ↦
          let same : u ≡ i = ground (arith, e, s, made-id f, h) in
          (zero, omega (arith, same), ((==_iff f.def_id id).0 s, Absent-index (i + 1) fs id e))
      | inr s ↦ absurd (ground (arith, e, s, made-id f, h))
    ]
  ]

  edges-at :
      (fs : List HirFnDef) (v : ℕ) (f : HirFnDef)
      → get_elem? fs v ≡ some f
      → get_elem? (edges_of fs) v ≡ some (scan_fn (scope_of m) f).callees
  edges-at [] v f h = absurd (cc h)
  edges-at (x ∷ fs) zero f h =
      let same : x ≡ f = cc h in ap (λ (g : HirFnDef). some (scan_fn (scope_of m) g).callees) same
  edges-at (x ∷ fs) (suc v) f h = edges-at fs v f h

  at-edges :
      (fs : List HirFnDef) (v : ℕ) (cs : List (ℕ × Span))
      → get_elem? (edges_of fs) v ≡ some cs
      → (f : HirFnDef) × (get_elem? fs v ≡ some f) × ((scan_fn (scope_of m) f).callees ≡ cs)
  at-edges [] v cs h = absurd (cc h)
  at-edges (x ∷ fs) zero cs h = (x, refl, cc h)
  at-edges (x ∷ fs) (suc v) cs h = at-edges fs v cs h

  pub edge_of : (v u : ℕ) → CallsByName m v u → Calls (index_from 0 (entries m)) (call_edges m) v u
  edge_of v u (f, id, e, c, l) =
      let (span, member) = (callees_iff m id f).1 c in
      let start : 0 + u ≡ u = omega arith in
      site (scan_fn (scope_of m) f).callees id span (edges-at m.functions v f e) member
        (index-LastAt 0 m.functions id u l ∙ ap (λ k. some k) start)

  pub of_edge : (v u : ℕ) → Calls (index_from 0 (entries m)) (call_edges m) v u → CallsByName m v u
  of_edge v u (site cs id span e member i) =
      let (f, at, same) = at-edges m.functions v cs e in
      let (j, p, l) = LastAt-index 0 m.functions id u i in
      let is_j : j ≡ u = omega (arith, p) in
      (
        f,
        id,
        at,
        (callees_iff m id f).0 (subst (λ l. HasIn id l) (sym same) (span, member)),
        subst (LastAt m.functions id) is_j l,
      )
