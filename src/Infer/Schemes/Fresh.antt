-- ===== src/Infer/Schemes/Fresh.antt =====
-- The variables of an instantiated scheme.
use asatsuyu.Base.{
  ℕ, ◌≤◌, ◌<◌, ◌≡◌, refl, Bool, true, false, Option, none, some, List, [], ◌∷◌, any, ◌==◌, ◌+◌, ◌%◌,
  length, arith, Bool-cases, Option-cases, inl, inr, List-cases,
}
use asatsuyu.Syntax.Span.{u32_mod}
use asatsuyu.Types.{
  Ty, Tys, TypeScheme, primitive, function, named, ffi_module, ffi_instance, opaque, var, error,
  nil, cons,
}
use asatsuyu.Infer.{InferCtx, fresh_var}
use asatsuyu.Infer.Below.{Below, BelowAll}
use asatsuyu.Infer.WellFormed.{IsWellFormed, fresh_var-IsWellFormed}
use asatsuyu.Infer.Schemes.{apply_mapping, apply_mapping_all, fresh_all, instantiate}

-- No variable of the type passes the test.
abbrev mutual
  pub Avoids : (ℕ → Bool) → Ty → Type 0
  Avoids p (function ps r) = AvoidsAll p ps × Avoids p r
  Avoids p (named d m ts) = AvoidsAll p ts
  Avoids p (var v) = p v ≡ false
  Avoids p (primitive q) = Unit
  Avoids p (ffi_module m) = Unit
  Avoids p (ffi_instance m c) = Unit
  Avoids p (opaque m c) = Unit
  Avoids p error = Unit

  pub AvoidsAll : (ℕ → Bool) → Tys → Type 0
  AvoidsAll p nil = Unit
  AvoidsAll p (cons t ts) = Avoids p t × AvoidsAll p ts

-- What the map of the fresh variables gives: every listed variable goes to a variable allocated
-- between the two contexts.
record IsFresh (from to : ℕ) (vs : List ℕ) (mapping : ℕ → Option Ty) : Type 0 where
  grows : from ≤ to
  hits : (w : ℕ) (t : Ty) → mapping w ≡ some t → (k : ℕ) × (t ≡ var k) × (from ≤ k) × (k < to)
  misses : (w : ℕ) → mapping w ≡ none → any (λ v. w == v) vs ≡ false

fresh_all-IsFresh :
    (c : InferCtx) (vs : List ℕ)
    → c.next_var + length vs < u32_mod
    → IsWellFormed c
    → IsWellFormed (fresh_all c vs).0
      × IsFresh c.next_var (fresh_all c vs).0.next_var vs (fresh_all c vs).1
unfolding fresh_all fresh_var
fresh_all-IsFresh c [] small w = (
  w,
  record { grows = omega arith; hits = λ v t e. absurd (ground (arith, e)); misses = λ v e. refl },
)
fresh_all-IsFresh c (v ∷ vs) small w =
    let next : (c.next_var + 1) % u32_mod ≡ c.next_var + 1 = omega (arith, small) in
    let (w', f) =
      fresh_all-IsFresh (fresh_var c).0 vs (omega (arith, next, small))
        (fresh_var-IsWellFormed c (omega (arith, small)) w).0 in
    let rest = fresh_all (fresh_var c).0 vs in
    (
      w',
      record {
        grows = let g = f.grows in omega (arith, next);
        hits = λ u t e. elim (Option-cases (rest.1 u)) [
          | inr (t', p) ↦
              let (k, q, lo, hi) = f.hits u t' p in
              (k, ground (arith, p, e, q), omega (arith, lo, next), hi)
          | inl p ↦ elim (Bool-cases (u == v)) [
            | inl s ↦ (
              c.next_var,
              ground (arith, p, s, e),
              omega arith,
              let g = f.grows in omega (arith, next),
            )
            | inr s ↦ absurd (ground (arith, p, s, e))
          ]
        ];
        misses = λ u e. elim (Option-cases (rest.1 u)) [
          | inr (t', p) ↦ absurd (ground (arith, p, e))
          | inl p ↦ ground (arith, p, e, f.misses u p)
        ];
      },
    )

module _ (n to : ℕ) (vs : List ℕ) (mapping : ℕ → Option Ty) (f : IsFresh n to vs mapping)
    (listed : (v : ℕ) → any (λ u. v == u) vs ≡ true → v < n) where
  abbrev quantified : ℕ → Bool
  quantified v = any (λ u. v == u) vs

  landed :
      (v : ℕ) (o : Option Ty)
      → mapping v ≡ o
      → v < n
      → Below to (elim o [ some t ↦ t | none ↦ var v ])
        × Avoids quantified (elim o [ some t ↦ t | none ↦ var v ])
  landed v none e b = ((let g = f.grows in omega arith), f.misses v e)
  landed v (some t) e b =
      let (k, q, lo, hi) = f.hits v t e in
      rw q (
        hi,
        elim (Bool-cases (quantified k)) [
          | inl h ↦ absurd (omega (arith, listed k h, lo))
          | inr h ↦ h
        ],
      )

  mutual
    unfolding apply_mapping apply_mapping_all

    mapped :
        (t : Ty)
        → Below n t
        → Below to (apply_mapping mapping t) × Avoids quantified (apply_mapping mapping t)
    mapped (var v) b = landed v (mapping v) refl b
    mapped (function ps r) b =
        let (ps', pa) = mapped_all ps b.0 in let (r', ra) = mapped r b.1 in ((ps', r'), (pa, ra))
    mapped (named d m ts) b = mapped_all ts b
    mapped (primitive p) b = (tt, tt)
    mapped (ffi_module m) b = (tt, tt)
    mapped (ffi_instance m c) b = (tt, tt)
    mapped (opaque m s) b = (tt, tt)
    mapped error b = (tt, tt)

    mapped_all :
        (ts : Tys)
        → BelowAll n ts
        → BelowAll to (apply_mapping_all mapping ts)
          × AvoidsAll quantified (apply_mapping_all mapping ts)
    mapped_all nil b = (tt, tt)
    mapped_all (cons t ts) b =
        let (t', ta) = mapped t b.0 in let (ts', tsa) = mapped_all ts b.1 in ((t', ts'), (ta, tsa))

mutual
  Avoids-nothing : (p : ℕ → Bool) → ((v : ℕ) → p v ≡ false) → (t : Ty) → Avoids p t
  Avoids-nothing p h (function ps r) = (avoids_nothing_all p h ps, Avoids-nothing p h r)
  Avoids-nothing p h (named d m ts) = avoids_nothing_all p h ts
  Avoids-nothing p h (var v) = h v
  Avoids-nothing p h (primitive q) = tt
  Avoids-nothing p h (ffi_module m) = tt
  Avoids-nothing p h (ffi_instance m c) = tt
  Avoids-nothing p h (opaque m s) = tt
  Avoids-nothing p h error = tt

  avoids_nothing_all : (p : ℕ → Bool) → ((v : ℕ) → p v ≡ false) → (ts : Tys) → AvoidsAll p ts
  avoids_nothing_all p h nil = tt
  avoids_nothing_all p h (cons t ts) = (Avoids-nothing p h t, avoids_nothing_all p h ts)

-- Where the variables of the context and of the scheme together are fewer than 2^32,
-- instantiating a scheme over allocated variables keeps the invariant, and gives a type over
-- allocated variables in which no quantified variable is left.
pub instantiate-IsWellFormed :
    (c : InferCtx) (scheme : TypeScheme)
    → c.next_var + length scheme.vars < u32_mod
    → IsWellFormed c
    → Below c.next_var scheme.ty
    → ((v : ℕ) → any (λ u. v == u) scheme.vars ≡ true → v < c.next_var)
    → IsWellFormed (instantiate c scheme).0
      × Below (instantiate c scheme).0.next_var (instantiate c scheme).1
      × Avoids (λ v. any (λ u. v == u) scheme.vars) (instantiate c scheme).1
unfolding instantiate
instantiate-IsWellFormed c scheme small w b listed = elim (List-cases scheme.vars) [
  | inl e ↦ rw (e, instantiate) (w, b, Avoids-nothing _ (λ v. refl) scheme.ty)
  | inr (v, vs, e) ↦
      let (w', f) = fresh_all-IsFresh c (v ∷ vs) (rw e at small) w in
      let (t', a) =
        mapped c.next_var (fresh_all c (v ∷ vs)).0.next_var (v ∷ vs) (fresh_all c (v ∷ vs)).1 f
          (rw e at listed) scheme.ty b in
      rw (e, instantiate) (w', t', a)
]
