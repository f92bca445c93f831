-- ===== src/Infer/Steps.antt =====
-- What a successful step of `unify` tells of its parts.
use asatsuyu.Base.{
  ℕ, zero, suc, ◌≡◌, refl, Bool, true, false, none, some, arith, Option-cases, inl, inr,
}
use asatsuyu.Types.{PrimTy, Ty, var}
use asatsuyu.Infer.{
  Subst, InferCtx, insert, shallow_resolve, Outcome, out_of_fuel, ok, err, and_then, bind_var,
  require, occurs_in, same_prim,
}

pub ok-injective : (c d : InferCtx) → ok c ≡ ok d → c ≡ d
ok-injective c d h = cc

pub and_then-eq-ok :
    (m : Outcome) (k : InferCtx → Outcome) {c : InferCtx}
    → and_then m k ≡ ok c
    → (d : InferCtx) × (m ≡ ok d) × (k d ≡ ok c)
and_then-eq-ok out_of_fuel k h = cc
and_then-eq-ok (ok d) k h = (d, refl, h)
and_then-eq-ok (err d e) k h = cc

unfoldable pub bound_ctx : InferCtx → ℕ → Ty → InferCtx
bound_ctx c x t = record c { subst = insert x t c.subst }

pub bind_var-eq-ok :
    (f : ℕ) (c : InferCtx) (x : ℕ) (t : Ty) (d : InferCtx)
    → bind_var f c x t ≡ ok d
    → (occurs_in f c.subst x t ≡ some false) × (bound_ctx c x t ≡ d)
unfolding bound_ctx
bind_var-eq-ok f c x t d h = elim (Option-cases (occurs_in f c.subst x t)) [
  | inl e ↦ absurd (ground arith)
  | inr (true, e) ↦ absurd (ground arith)
  | inr (false, e) ↦ (e, ground arith)
]

pub require-eq-ok :
    (b : Bool) (c : InferCtx) (x y : Ty) (d : InferCtx)
    → require b c x y ≡ ok d
    → (b ≡ true) × (c ≡ d)
require-eq-ok true c x y d h = (refl, ok-injective c d h)
require-eq-ok false c x y d h = cc

pub same_prim→eq : (p q : PrimTy) → same_prim p q ≡ true → p ≡ q
same_prim→eq PrimTy.int PrimTy.int h = refl
same_prim→eq PrimTy.float PrimTy.float h = refl
same_prim→eq PrimTy.string PrimTy.string h = refl
same_prim→eq PrimTy.bool PrimTy.bool h = refl
same_prim→eq PrimTy.none PrimTy.none h = refl
same_prim→eq _ _ h = cc

-- A type that `shallow_resolve` returns: no bound variable.
abbrev pub IsResolved : Subst → Ty → Type 0
IsResolved s (var v) = s v ≡ none
IsResolved s _ = Unit

-- The bindings that `shallow_resolve` follows.
pub data Leads (s : Subst) : Ty → Ty → Type 0 where
  here : (t : Ty) → Leads s t t
  follow : {v : ℕ} {t u : Ty} → s v ≡ some t → Leads s t u → Leads s (var v) u

pub shallow_resolve-Leads :
    (f : ℕ) (s : Subst) (t : Ty) (u : Ty)
    → shallow_resolve f s t ≡ some u
    → Leads s t u × IsResolved s u
unfolding shallow_resolve
shallow_resolve-Leads zero s t u h = cc
shallow_resolve-Leads (suc f) s (var v) u h = elim (Option-cases (s v)) [
  | inl e ↦ let p : var v ≡ u = cc (rw (e, shallow_resolve) at h) in rw (← p) (here (var v), e)
  | inr (t, e) ↦
      let (l, r) = shallow_resolve-Leads f s t u (rw (e, shallow_resolve) at h) in (follow e l, r)
]
shallow_resolve-Leads (suc f) s t u h = let e : t ≡ u = cc in rw (← e) (here t, tt)
