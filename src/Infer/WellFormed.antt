-- ===== src/Infer/WellFormed.antt =====
-- The invariant of the inference context, kept by its operations.
use asatsuyu.Base.{
  ◌%◌, ℕ, ◌+◌, ◌≤◌, ◌<◌, ◌≡◌, refl, false, none, some, arith, Bool-cases, Option-cases, inl, inr,
  ◌∙◌, ◌==◌, ==_iff,
}
use asatsuyu.Syntax.Span.{u32_mod}
use asatsuyu.Types.{
  Ty, Tys, var, nil, cons, function, named, primitive, ffi_module, ffi_instance, opaque, error,
}
use asatsuyu.Infer.{Subst, InferCtx, new, insert, fresh_var, unify, occurs_in}
use asatsuyu.Infer.Steps.{bound_ctx}
use asatsuyu.Infer.Below.{Below, BelowAll, BelowSubst, Holds, unify-Holds}
use asatsuyu.Infer.Finite.{IsAcyclic, unbound, insert-IsAcyclic}

-- Bindings are made only of and to allocated variables, and no binding leads back into itself.
pub record IsWellFormed (c : InferCtx) : Type 0 where
  pub domain : (v : ℕ) (t : Ty) → c.subst v ≡ some t → v < c.next_var
  pub range : BelowSubst c.next_var c.subst
  pub acyclic : IsAcyclic c.subst

abbrev pub AllocatedBelow : ℕ → InferCtx → Type 0
AllocatedBelow n c = (c.next_var ≡ n) × IsWellFormed c

pub new-IsWellFormed : IsWellFormed new
new-IsWellFormed = record {
  domain = λ v t e. absurd (cc e);
  range = λ v t e. absurd (cc e);
  acyclic = λ v. unbound refl;
}

insert-range :
    (n : ℕ) (s : Subst) (x : ℕ) (t : Ty) → BelowSubst n s → Below n t → BelowSubst n (insert x t s)
insert-range n s x t h b v u e = elim (Bool-cases (v == x)) [
  | inl p ↦ let q : t ≡ u = cc (rw p at e) in rw (← q) b
  | inr p ↦ h v u (rw p at e)
]

insert-domain :
    (n : ℕ) (s : Subst) (x : ℕ) (t : Ty)
    → ((v : ℕ) (u : Ty) → s v ≡ some u → v < n)
    → x < n
    → (v : ℕ) (u : Ty) → insert x t s v ≡ some u
    → v < n
insert-domain n s x t h lt v u e = elim (Bool-cases (v == x)) [
  | inl p ↦ rw ((==_iff v x).0 p) lt
  | inr p ↦ h v u (rw p at e)
]

bound_ctx-IsWellFormed :
    (f : ℕ) (c : InferCtx) (x : ℕ) (t : Ty)
    → IsWellFormed c
    → c.subst x ≡ none
    → x < c.next_var
    → Below c.next_var t
    → occurs_in f c.subst x t ≡ some false
    → IsWellFormed (bound_ctx c x t)
unfolding bound_ctx
bound_ctx-IsWellFormed f c x t w free lt b clear = record {
  domain = insert-domain c.next_var c.subst x t w.domain lt;
  range = insert-range c.next_var c.subst x t w.range b;
  acyclic = insert-IsAcyclic f c.subst x t free clear w.acyclic;
}

bound_ctx-next_var : (c : InferCtx) (x : ℕ) (t : Ty) → (bound_ctx c x t).next_var ≡ c.next_var
unfolding bound_ctx
bound_ctx-next_var c x t = refl

pub bound_ctx-AllocatedBelow :
    (n f : ℕ) (c : InferCtx) (x : ℕ) (t : Ty)
    → AllocatedBelow n c
    → c.subst x ≡ none
    → x < n
    → Below n t
    → occurs_in f c.subst x t ≡ some false
    → AllocatedBelow n (bound_ctx c x t)
bound_ctx-AllocatedBelow n f c x t (e, h) free lt b clear =
    (bound_ctx-next_var c x t ∙ e, bound_ctx-IsWellFormed f c x t h free (rw e lt) (rw e b) clear)

-- `unify` on allocated types, with an error or without, keeps the invariant and allocates nothing:
-- the occurs check rules out infinite types also among the bindings that a failed call leaves.
pub unify-IsWellFormed :
    (f : ℕ) (c : InferCtx) (a b : Ty)
    → IsWellFormed c
    → Below c.next_var a
    → Below c.next_var b
    → Holds c.next_var (AllocatedBelow c.next_var) (unify f c a b)
unify-IsWellFormed f c a b w ba bb =
    unify-Holds c.next_var (AllocatedBelow c.next_var) (bound_ctx-AllocatedBelow c.next_var)
      (λ d (e, h). rw (← e) h.range) f c a b (refl, w) ba bb

mutual
  pub Below-weaken : (m n : ℕ) → m ≤ n → (t : Ty) → Below m t → Below n t
  Below-weaken m n h (function ps r) b = (BelowAll-weaken m n h ps b.0, Below-weaken m n h r b.1)
  Below-weaken m n h (named d k ts) b = BelowAll-weaken m n h ts b
  Below-weaken m n h (var v) b = omega arith
  Below-weaken m n h (primitive p) b = tt
  Below-weaken m n h (ffi_module k) b = tt
  Below-weaken m n h (ffi_instance k l) b = tt
  Below-weaken m n h (opaque k l) b = tt
  Below-weaken m n h error b = tt

  pub BelowAll-weaken : (m n : ℕ) → m ≤ n → (ts : Tys) → BelowAll m ts → BelowAll n ts
  BelowAll-weaken m n h nil b = tt
  BelowAll-weaken m n h (cons t ts) b = (Below-weaken m n h t b.0, BelowAll-weaken m n h ts b.1)

-- While fewer than 2^32 - 1 variables are allocated, `fresh_var` keeps the invariant and gives an
-- allocated variable that was not allocated before, so that no type over the earlier variables
-- and no binding mentions it, and it has no binding.
pub fresh_var-IsWellFormed :
    (c : InferCtx)
    → c.next_var + 1 < u32_mod
    → IsWellFormed c
    → IsWellFormed (fresh_var c).0
      × Below (fresh_var c).0.next_var (fresh_var c).1
      × (¬ Below c.next_var (fresh_var c).1)
      × ((fresh_var c).0.subst c.next_var ≡ none)
unfolding fresh_var
fresh_var-IsWellFormed c small w =
    let next : (c.next_var + 1) % u32_mod ≡ c.next_var + 1 = omega (arith, small) in
    (
      record {
        domain = λ v t e. let lt = w.domain v t e in omega (arith, next);
        range = λ v t e.
            Below-weaken c.next_var ((c.next_var + 1) % u32_mod) (omega (arith, next)) t
              (w.range v t e);
        acyclic = w.acyclic;
      },
      omega (arith, next),
      omega arith,
      elim (Option-cases (c.subst c.next_var)) [
        | inl e ↦ e
        | inr (t, e) ↦ let lt = w.domain c.next_var t e in absurd (omega arith)
      ],
    )
