-- ===== src/Purity/Propagate/CallGraph.antt =====
-- The reversed call graph against the calls of the bodies, and the analysis of a module.
use asatsuyu.Base.{
  ℕ, zero, suc, ◌+◌, ◌<◌, ◌≡◌, refl, ap, ◌↔◌, ◌⊎◌, inl, inr, true, Option, some, List, [], ◌∷◌,
  ◌++◌, get_elem?, length, arith, Memᴰ,
}
use mathlib.Core.List.Memᴰ
use asatsuyu.Syntax.Span.{Span}
use asatsuyu.Purity.{FunctionPurity}
use asatsuyu.Purity.Propagate.{Edges, index_from, calls_to, incoming_from, propagate}
use asatsuyu.Purity.Propagate.Relax.{effectful_at, Caller}
use asatsuyu.Purity.Propagate.Fixpoint.{Reaches, own, calls, loop_lem}

-- The body at `caller` calls a definition whose position is `target`.
pub data Calls (index : ℕ → Option ℕ) (edges : Edges) (caller target : ℕ) : Type 0 where
  site :
      (callees : List (ℕ × Span)) (callee : ℕ) (span : Span)
      → get_elem? edges caller ≡ some callees
      → Memᴰ (callee, span) callees
      → index callee ≡ some target
      → Calls index edges caller target

module _ (index : ℕ → Option ℕ) where
  CallsIn : List (ℕ × Span) → ℕ → Type 0
  CallsIn callees target =
      (callee : ℕ) × (span : Span) × Memᴰ (callee, span) callees × (index callee ≡ some target)

  Caller-append :
      (v : ℕ) (xs ys : List (ℕ × Span)) → Caller v (xs ++ ys) ↔ (Caller v xs ⊎ Caller v ys)
  Caller-append v [] ys = ground arith
  Caller-append v (x ∷ xs) ys = ground (arith, Caller-append v xs ys)

  calls_to-cons :
      (target caller v id : ℕ) (span : Span) (callees : List (ℕ × Span))
      → Caller v (calls_to index target caller ((id, span) ∷ callees)) ↔ (
          ((v ≡ caller) × (index id ≡ some target))
          ⊎ Caller v (calls_to index target caller callees))
  unfolding calls_to
  calls_to-cons target caller v id span callees = ground arith

  calls_to_sound :
      (target caller v : ℕ) (callees : List (ℕ × Span))
      → Caller v (calls_to index target caller callees)
      → (v ≡ caller) × CallsIn callees target
  unfolding calls_to CallsIn
  calls_to_sound target caller v [] h = absurd h
  calls_to_sound target caller v ((id, span) ∷ callees) h =
      elim ((calls_to-cons target caller v id span callees).0 h) [
        | inl here ↦ (here.0, (id, span, Memᴰ.head refl, here.1))
        | inr there ↦
            let (p, (d, sp, m, q)) = calls_to_sound target caller v callees there in
            (p, (d, sp, Memᴰ.tail m, q))
      ]

  calls_to_complete :
      (target caller id : ℕ) (span : Span) (callees : List (ℕ × Span))
      → Memᴰ (id, span) callees
      → index id ≡ some target
      → Caller caller (calls_to index target caller callees)
  calls_to_complete target caller id span [] m e = absurd (Memᴰ.not-nil m)
  calls_to_complete target caller id span ((d, sp) ∷ callees) m e = elim (Memᴰ.cases_cons m) [
    | inl p ↦
        (calls_to-cons target caller caller d sp callees).1
          (inl (refl, cc (e, ap (λ (q : ℕ × Span). q.0) p)))
    | inr rest ↦
        (calls_to-cons target caller caller d sp callees).1
          (inr (calls_to_complete target caller id span callees rest e))
  ]

  incoming_from_sound :
      (i : ℕ) (edges : Edges) (u v : ℕ)
      → Caller v (incoming_from index i edges u)
      → (j : ℕ) × (v ≡ i + j) × Calls index edges j u
  unfolding incoming_from CallsIn
  incoming_from_sound i [] u v h = absurd h
  incoming_from_sound i (callees ∷ edges) u v h =
      elim ((Caller-append v (calls_to index u i callees) (incoming_from index (i + 1) edges u)).0
        h) [
          | inl here ↦
              let (e, (d, sp, m, q)) = calls_to_sound u i v callees here in
              (0, omega arith, site callees d sp refl m q)
          | inr rest ↦
              let (j, e, c) = incoming_from_sound (i + 1) edges u v rest in
              (suc j, omega arith, later j c)
        ]
    where
      later : (j : ℕ) → Calls index edges j u → Calls index (callees ∷ edges) (suc j) u
      later j (site cs d sp e m q) = site cs d sp e m q

  incoming_from_complete :
      (i : ℕ) (edges : Edges) (u j v : ℕ) (callees : List (ℕ × Span)) (d : ℕ) (sp : Span)
      → v ≡ i + j
      → get_elem? edges j ≡ some callees
      → Memᴰ (d, sp) callees
      → index d ≡ some u
      → Caller v (incoming_from index i edges u)
  unfolding incoming_from
  incoming_from_complete i [] u j v callees d sp p e m q = absurd (cc e)
  incoming_from_complete i (cs ∷ edges) u zero v callees d sp p e m q =
      let same : v ≡ i = omega arith in
      let this : cs ≡ callees = cc in
      (Caller-append v (calls_to index u i cs) (incoming_from index (i + 1) edges u)).1
        (inl (rw (same, this) (calls_to_complete u i d sp callees m q)))
  incoming_from_complete i (cs ∷ edges) u (suc j) v callees d sp p e m q =
      (Caller-append v (calls_to index u i cs) (incoming_from index (i + 1) edges u)).1
        (inr (incoming_from_complete (i + 1) edges u j v callees d sp (omega arith) e m q))

-- From the function at a position an effect is reachable: its own body has one, or it calls a
-- function from which one is reachable.
pub data ReachesEffect (functions : List FunctionPurity) (edges : Edges) : ℕ → Type 0 where
  own_effect : {v : ℕ} → effectful_at functions v ≡ true → ReachesEffect functions edges v
  by_call :
      {u v : ℕ}
      → ReachesEffect functions edges u
      → Calls (index_from 0 functions) edges v u
      → v < length functions
      → ReachesEffect functions edges v

module _ (functions : List FunctionPurity) (edges : Edges) where
  abbrev incoming : ℕ → List (ℕ × Span)
  incoming = incoming_from (index_from 0 functions) 0 edges

  to_effect : {v : ℕ} → Reaches incoming functions v → ReachesEffect functions edges v
  to_effect (own h) = own_effect h
  to_effect (calls {u} {v} r c lt) =
      let (j, e, call) = incoming_from_sound (index_from 0 functions) 0 edges u v c in
      let same : v ≡ j = omega arith in by_call (to_effect r) (rw same call) lt

  of_effect : {v : ℕ} → ReachesEffect functions edges v → Reaches incoming functions v
  of_effect (own_effect h) = own h
  of_effect (by_call {u} {v} r (site cs d sp e m q) lt) =
      calls (of_effect r)
        (incoming_from_complete (index_from 0 functions) 0 edges u v v cs d sp (omega arith) e m q)
        lt

  pub propagate_lem :
      (result : List FunctionPurity) × (propagate functions edges ≡ some result)
      × (length result ≡ length functions)
      × ((v : ℕ) → (effectful_at result v ≡ true) ↔ ReachesEffect functions edges v)
  unfolding propagate
  propagate_lem =
      let (result, p, size, iff) = loop_lem incoming functions in
      (result, p, size, λ v. ((λ h. to_effect ((iff v).0 h)), λ r. (iff v).1 (of_effect r)))
