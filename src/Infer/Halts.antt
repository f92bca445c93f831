-- ===== src/Infer/Halts.antt =====
-- Termination of `unify`. Each binding uses up an unbound variable; between bindings the types get
-- smaller, which is the descent of the child module.
pub mod Descent
pub mod Total
use text.Mathlib.Text.{◌==◌ as str_eq}
use asatsuyu.Base.{
  ℕ, zero, suc, ◌+◌, ◌≤◌, ◌<◌, ◌≡◌, ◌≢◌, refl, ◌∙◌, ◌⊎◌, inl, inr, Bool, true, false, ◌&&◌, Option,
  none, some, arith, Bool-cases, Option-cases, ◌==◌, ==_iff, if◌then◌else◌,
}
use asatsuyu.Types.{
  PrimTy, Ty, Tys, primitive, function, named, ffi_module, ffi_instance, opaque, var, error, nil,
  cons,
}
use asatsuyu.Infer.{
  Subst, InferCtx, insert, shallow_resolve, occurs_in, Outcome, out_of_fuel, ok, err, and_then,
  bind_var, require, unify_all, unify_step, unify, count, mismatch, infinite_type,
}
use asatsuyu.Infer.Steps.{bound_ctx, IsResolved, Leads, shallow_resolve-Leads}
use asatsuyu.Infer.Below.{Below, BelowAll, Below-Leads, Holds, unify_all-Holds, unify-Holds}
use asatsuyu.Infer.Finite
use asatsuyu.Infer.Finite.{Finite, FiniteAll, Finite-IsAcyclic}
use asatsuyu.Infer.WellFormed.{IsWellFormed, AllocatedBelow, bound_ctx-AllocatedBelow}
use asatsuyu.Infer.Settle.{from_suc, walk, occurs_in-Settles}

-- From some fuel on there is an outcome, and it does not change.
abbrev pub Stable : (ℕ → Outcome) → Type 0
Stable h = (n : ℕ) × (o : Outcome) × (o ≢ out_of_fuel) × ((g : ℕ) → n ≤ g → h g ≡ o)

-- The variables below `n` that have no binding.
pub unbound_below : ℕ → Subst → ℕ
unbound_below zero s = 0
unbound_below (suc n) s = elim (s n) [ none ↦ suc (unbound_below n s) | some _ ↦ unbound_below n s ]

unbound_below-insert_ge :
    (n : ℕ) (s : Subst) (x : ℕ) (t : Ty)
    → n ≤ x
    → unbound_below n (insert x t s) ≡ unbound_below n s
unfolding unbound_below
unbound_below-insert_ge zero s x t h = refl
unbound_below-insert_ge (suc n) s x t h =
    ground (arith, unbound_below-insert_ge n s x t (omega arith))

unbound_below-insert :
    (n : ℕ) (s : Subst) (x : ℕ) (t : Ty)
    → x < n
    → s x ≡ none
    → unbound_below n (insert x t s) < unbound_below n s
unfolding unbound_below
unbound_below-insert zero s x t lt free = absurd (omega arith)
unbound_below-insert (suc n) s x t lt free = elim (Bool-cases (n == x)) [
  | inl e ↦
      let same : n ≡ x = (==_iff n x).0 e in
      ground (arith, unbound_below-insert_ge n s x t (omega arith))
  | inr e ↦ ground (arith, unbound_below-insert n s x t (ground arith) free)
]

const-Stable : (h : ℕ → Outcome) (o : Outcome) → o ≢ out_of_fuel → ((g : ℕ) → h g ≡ o) → Stable h
const-Stable h o e k = (0, o, e, λ g _. k g)

ok-Stable : (h : ℕ → Outcome) (c : InferCtx) → ((g : ℕ) → h g ≡ ok c) → Stable h
ok-Stable h c k = const-Stable h (ok c) (λ e. cc) k

require-Stable : (b : Bool) (c : InferCtx) (x y : Ty) → Stable (λ _. require b c x y)
require-Stable true c x y = ok-Stable _ c (λ _. refl)
require-Stable false c x y = const-Stable _ (err c (mismatch x y)) (λ p. cc) (λ _. refl)

bind-Stable : (c : InferCtx) (x : ℕ) (t : Ty) → Finite c.subst t → Stable (λ g. bind_var g c x t)
bind-Stable c x t h = go (occurs_in-Settles c.subst x h).1 (occurs_in-Settles c.subst x h).2
  where
    n : ℕ
    n = (occurs_in-Settles c.subst x h).0

    go :
        (b : Bool)
        → ((g : ℕ) → n ≤ g → occurs_in g c.subst x t ≡ some b)
        → Stable (λ g. bind_var g c x t)
    go true k = (n, err c (infinite_type x t), (λ p. cc), λ g lt. rw (k g lt, bind_var) refl)
    go false k = (
      n,
      ok (record c { subst = insert x t c.subst }),
      (λ p. cc),
      λ g lt. rw (k g lt, bind_var) refl,
    )

and_then-Stable :
    (m : ℕ → Outcome) (k : ℕ → InferCtx → Outcome)
    → Stable m
    → ((d : InferCtx) (g : ℕ) → m g ≡ ok d → Stable (λ g'. k g' d))
    → Stable (λ g. and_then (m g) (k g))
and_then-Stable m k (n, out_of_fuel, e, h) next = absurd (e refl)
and_then-Stable m k (n, ok d, e, h) next =
    let (n', o, e', h') = next d n (h n (omega arith)) in
    (n + n', o, e', λ g lt. rw (h g (omega arith)) (h' g (omega arith)))
and_then-Stable m k (n, err d x, e, h) next = (n, err d x, e, λ g lt. rw (h g lt) refl)

-- The context after a call: the same one, or one with fewer unbound variables.
abbrev Grown : ℕ → InferCtx → InferCtx → Type 0
Grown n c d = AllocatedBelow n d × ((d ≡ c) ⊎ (unbound_below n d.subst < unbound_below n c.subst))

bound_ctx-Grown :
    (n : ℕ) (c : InferCtx) (f : ℕ) (d : InferCtx) (x : ℕ) (t : Ty)
    → Grown n c d
    → d.subst x ≡ none
    → x < n
    → Below n t
    → occurs_in f d.subst x t ≡ some false
    → Grown n c (bound_ctx d x t)
unfolding bound_ctx
bound_ctx-Grown n c f d x t (r, inl e) free lt b clear = (
  bound_ctx-AllocatedBelow n f d x t r free lt b clear,
  inr (rw (← e) (unbound_below-insert n d.subst x t lt free)),
)
bound_ctx-Grown n c f d x t (r, inr less) free lt b clear = (
  bound_ctx-AllocatedBelow n f d x t r free lt b clear,
  inr (omega (arith, unbound_below-insert n d.subst x t lt free)),
)

module _ (n : ℕ) where
  range_of : (c : InferCtx) → AllocatedBelow n c → (v : ℕ) (t : Ty) → c.subst v ≡ some t → Below n t
  range_of c (e, w) v t p = rw e at (w.range v t p)

  finite_in : (c : InferCtx) → AllocatedBelow n c → (t : Ty) → Finite c.subst t
  finite_in c (e, w) t = Finite-IsAcyclic c.subst w.acyclic t

  unify-Grown :
      (g : ℕ) (c : InferCtx) (a b : Ty) (d : InferCtx)
      → AllocatedBelow n c
      → Below n a
      → Below n b
      → unify g c a b ≡ ok d
      → Grown n c d
  unify-Grown g c a b d r ba bb e = rw e at (
      unify-Holds n (Grown n c) (bound_ctx-Grown n c) (λ d' h. range_of d' h.0) g c a b
        (r, inl refl) ba bb)

  unify_all-Grown :
      (g : ℕ) (c : InferCtx) (ps qs : Tys) (d : InferCtx)
      → AllocatedBelow n c
      → BelowAll n ps
      → BelowAll n qs
      → unify_all (unify g) c ps qs ≡ ok d
      → Grown n c d
  unify_all-Grown g c ps qs d r bp bq e = rw e at (
      unify_all-Holds n (Grown n c) (unify g)
        (unify-Holds n (Grown n c) (bound_ctx-Grown n c) (λ d' h. range_of d' h.0) g) c ps qs
        (r, inl refl) bp bq)

  abbrev HaltsBelow : ℕ → Type 0
  HaltsBelow k =
      (c : InferCtx) (a b : Ty)
      → AllocatedBelow n c
      → unbound_below n c.subst < k
      → Below n a
      → Below n b
      → Stable (λ g. unify g c a b)

  -- Once a binding was made, the calls that are left halt by the count of unbound variables.
  later_all :
      (k : ℕ)
      → HaltsBelow k
      → (c : InferCtx) (ps qs : Tys) → AllocatedBelow n c
      → unbound_below n c.subst < k
      → BelowAll n ps
      → BelowAll n qs
      → Stable (λ g. unify_all (unify g) c ps qs)
  later_all k halts c nil qs r lt bp bq = ok-Stable _ c (λ _. refl)
  later_all k halts c (cons p ps) nil r lt bp bq = ok-Stable _ c (λ _. refl)
  later_all k halts c (cons p ps) (cons q qs) r lt bp bq =
      and_then-Stable (λ g. unify g c p q) (λ g d. unify_all (unify g) d ps qs)
        (halts c p q r lt bp.0 bq.0)
        (λ d g e.
          let (r', less) = unify-Grown g c p q d r bp.0 bq.0 e in
          later_all k halts d ps qs r' (not_more d less) bp.1 bq.1)
    where
      not_more :
          (d : InferCtx)
          → (d ≡ c) ⊎ (unbound_below n d.subst < unbound_below n c.subst)
          → unbound_below n d.subst < k
      not_more d (inl e) = rw e lt
      not_more d (inr h) = omega arith
