-- ===== src/Infer/Below.antt =====
-- Types whose variables are below a bound, and the rule by which `unify` keeps a property of the
-- context that each of its bindings keeps.
use asatsuyu.Base.{
  ℕ, zero, suc, ◌<◌, ◌≡◌, Bool, true, false, ◌&&◌, none, some, Bool-cases, Option-cases, inl, inr,
  ◌==◌,
}
use asatsuyu.Types.{
  Ty, Tys, primitive, function, named, ffi_module, ffi_instance, opaque, var, error, nil, cons,
}
use asatsuyu.Infer.{
  Subst, InferCtx, shallow_resolve, occurs_in, Outcome, out_of_fuel, ok, err, and_then, bind_var,
  require, unify_all, unify_step, unify, count,
}
use asatsuyu.Infer.Steps.{bound_ctx, IsResolved, Leads, here, follow, shallow_resolve-Leads}

abbrev mutual
  pub Below : ℕ → Ty → Type 0
  Below n (function ps r) = BelowAll n ps × Below n r
  Below n (named d m ts) = BelowAll n ts
  Below n (var v) = v < n
  Below n (primitive p) = Unit
  Below n (ffi_module m) = Unit
  Below n (ffi_instance m c) = Unit
  Below n (opaque m c) = Unit
  Below n error = Unit

  pub BelowAll : ℕ → Tys → Type 0
  BelowAll n nil = Unit
  BelowAll n (cons t ts) = Below n t × BelowAll n ts

abbrev pub BelowSubst : ℕ → Subst → Type 0
BelowSubst n s = (v : ℕ) (t : Ty) → s v ≡ some t → Below n t

pub Below-Leads :
    {n : ℕ} {s : Subst} {t u : Ty} → BelowSubst n s → Leads s t u → Below n t → Below n u
Below-Leads h (here t) b = b
Below-Leads h (follow e l) b = Below-Leads h l (h _ _ e)

module _ (n : ℕ) (P : InferCtx → Type 0) where
  -- What holds of the context that a call leaves, with or without an error.
  abbrev pub Holds : Outcome → Type 0
  Holds out_of_fuel = Unit
  Holds (ok d) = P d
  Holds (err d e) = P d

  pub and_then-Holds :
      (m : Outcome) (k : InferCtx → Outcome)
      → Holds m
      → ((d : InferCtx) → P d → Holds (k d))
      → Holds (and_then m k)
  and_then-Holds out_of_fuel k h next = tt
  and_then-Holds (ok d) k h next = next d h
  and_then-Holds (err d e) k h next = h

  require-Holds : (b : Bool) (c : InferCtx) (x y : Ty) → P c → Holds (require b c x y)
  require-Holds true c x y h = h
  require-Holds false c x y h = h

  abbrev HoldsAll : (InferCtx → Ty → Ty → Outcome) → Type 0
  HoldsAll rec = (c : InferCtx) (a b : Ty) → P c → Below n a → Below n b → Holds (rec c a b)

  pub unify_all-Holds :
      (rec : InferCtx → Ty → Ty → Outcome)
      → HoldsAll rec
      → (c : InferCtx) (ps qs : Tys) → P c
      → BelowAll n ps
      → BelowAll n qs
      → Holds (unify_all rec c ps qs)
  unify_all-Holds rec all c nil qs h bp bq = h
  unify_all-Holds rec all c (cons p ps) nil h bp bq = h
  unify_all-Holds rec all c (cons p ps) (cons q qs) h bp bq =
      and_then-Holds (rec c p q) (λ c'. unify_all rec c' ps qs) (all c p q h bp.0 bq.0)
        (λ d k. unify_all-Holds rec all d ps qs k bp.1 bq.1)

  -- A binding that `unify` makes keeps the property.
  abbrev pub KeepsBinding : Type 0
  KeepsBinding =
      (f : ℕ) (c : InferCtx) (x : ℕ) (t : Ty)
      → P c
      → c.subst x ≡ none
      → x < n
      → Below n t
      → occurs_in f c.subst x t ≡ some false
      → P (bound_ctx c x t)

  module _ (keep : KeepsBinding) where
    bind_var-Holds :
        (f : ℕ) (c : InferCtx) (x : ℕ) (t : Ty)
        → P c
        → c.subst x ≡ none
        → x < n
        → Below n t
        → Holds (bind_var f c x t)
    unfolding bound_ctx
    bind_var-Holds f c x t h free lt b = elim (Option-cases (occurs_in f c.subst x t)) [
      | inl e ↦ rw (e, Holds) tt
      | inr (true, e) ↦ rw (e, Holds) h
      | inr (false, e) ↦ rw (e, Holds) (keep f c x t h free lt b e)
    ]

    unify_step-Holds :
        (rec : InferCtx → Ty → Ty → Outcome)
        → HoldsAll rec
        → (f : ℕ) (c : InferCtx) (a b : Ty) → P c
        → IsResolved c.subst a
        → IsResolved c.subst b
        → Below n a
        → Below n b
        → Holds (unify_step rec f c a b)
    unfolding unify_step
    unify_step-Holds rec all f c error b h ra rb ba bb = h
    unify_step-Holds rec all f c (var x) error h ra rb ba bb = h
    unify_step-Holds rec all f c (var x) (var y) h ra rb ba bb = elim (Bool-cases (x == y)) [
      | inl e ↦ rw e h
      | inr e ↦ rw e (bind_var-Holds f c x (var y) h ra ba bb)
    ]
    unify_step-Holds rec all f c (var x) b h ra rb ba bb = bind_var-Holds f c x b h ra ba bb
    unify_step-Holds rec all f c a error h ra rb ba bb = h
    unify_step-Holds rec all f c a (var y) h ra rb ba bb = bind_var-Holds f c y a h rb bb ba
    unify_step-Holds rec all f c (primitive p) (primitive q) h ra rb ba bb =
        require-Holds _ c (primitive p) (primitive q) h
    unify_step-Holds rec all f c (function ps1 r1) (function ps2 r2) h ra rb ba bb =
        elim (Bool-cases (count ps1 == count ps2)) [
          | inl e ↦ rw e (
              and_then-Holds (unify_all rec c ps1 ps2) (λ c'. rec c' r1 r2)
                (unify_all-Holds rec all c ps1 ps2 h ba.0 bb.0) (λ d k. all d r1 r2 k ba.1 bb.1))
          | inr e ↦ rw e h
        ]
    unify_step-Holds rec all f c (named d1 n1 a1) (named d2 n2 a2) h ra rb ba bb =
        elim (Bool-cases ((d1 == d2) && (count a1 == count a2))) [
          | inl e ↦ rw e (unify_all-Holds rec all c a1 a2 h ba bb)
          | inr e ↦ rw e h
        ]
    unify_step-Holds rec all f c (ffi_module m1) (ffi_module m2) h ra rb ba bb =
        require-Holds _ c (ffi_module m1) (ffi_module m2) h
    unify_step-Holds rec all f c (ffi_instance m1 c1) (ffi_instance m2 c2) h ra rb ba bb =
        require-Holds _ c (ffi_instance m1 c1) (ffi_instance m2 c2) h
    unify_step-Holds rec all f c (opaque m1 s1) (opaque m2 s2) h ra rb ba bb =
        require-Holds _ c (opaque m1 s1) (opaque m2 s2) h
    unify_step-Holds rec all f c a b h ra rb ba bb = h

    module _ (scoped : (c : InferCtx) → P c → BelowSubst n c.subst) where
      pub unify-Holds :
          (f : ℕ) (c : InferCtx) (a b : Ty) → P c → Below n a → Below n b → Holds (unify f c a b)
      unfolding unify
      unify-Holds zero c a b h ba bb = tt
      unify-Holds (suc f) c a b h ba bb = elim (Option-cases (shallow_resolve f c.subst a)) [
        | inl p ↦ rw (p, unify, Holds) tt
        | inr (a', ea) ↦ elim (Option-cases (shallow_resolve f c.subst b)) [
          | inl p ↦ rw (ea, p, unify, Holds) tt
          | inr (b', eb) ↦
              let (la, ra) = shallow_resolve-Leads f c.subst a a' ea in
              let (lb, rb) = shallow_resolve-Leads f c.subst b b' eb in
              rw (ea, eb, unify)
                (unify_step-Holds (unify f) (unify-Holds f) f c a' b' h ra rb
                  (Below-Leads (scoped c h) la ba) (Below-Leads (scoped c h) lb bb))
        ]
      ]
