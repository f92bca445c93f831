-- ===== src/Infer/Sound.antt =====
-- A successful `unify` only adds bindings, and makes its two types agree.
use text.Mathlib.TextEquality.{eq_iff}
use asatsuyu.Base.{
  ℕ, zero, suc, ◌≡◌, ap, Bool, true, ◌&&◌, none, some, String, arith, Bool-cases, Option-cases, inl,
  inr, ◌==◌, ==_iff, if◌then◌else◌, and-eq-true,
}
use asatsuyu.Types.{
  Ty, Tys, primitive, function, named, ffi_module, ffi_instance, opaque, var, error, nil, cons,
}
use asatsuyu.Infer.{
  InferCtx, shallow_resolve, Outcome, ok, err, and_then, bind_var, require, unify_all, unify_step,
  unify, count, mismatch,
}
use asatsuyu.Infer.Steps.{
  ok-injective, and_then-eq-ok, bound_ctx, bind_var-eq-ok, require-eq-ok, same_prim→eq, IsResolved,
  shallow_resolve-Leads,
}
use asatsuyu.Infer.Agree
use asatsuyu.Infer.Agree.{
  Agree, AgreeAll, Agree-refl, Extends, Agree-extend, AgreeAll-extend, Leads-extend, Agree-left,
  Agree-right,
}

-- What a successful call gives.
abbrev pub Joins : InferCtx → InferCtx → Ty → Ty → Type 0
Joins c d a b = Extends c.subst d.subst × Agree d.subst a b

abbrev JoinsAll : InferCtx → InferCtx → Tys → Tys → Type 0
JoinsAll c d ps qs = Extends c.subst d.subst × AgreeAll d.subst ps qs

abbrev IsSound : (InferCtx → Ty → Ty → Outcome) → Type 0
IsSound rec = (c : InferCtx) (a b : Ty) (d : InferCtx) → rec c a b ≡ ok d → Joins c d a b

stays : (c d : InferCtx) (a b : Ty) → c ≡ d → Agree c.subst a b → Joins c d a b
stays c d a b e h = rw (← e) ((λ v t p. p), h)

Extends-bound :
    (c : InferCtx) (x : ℕ) (t : Ty) → c.subst x ≡ none → Extends c.subst (bound_ctx c x t).subst
unfolding bound_ctx
Extends-bound c x t free v u p = elim (Bool-cases (v == x)) [
  | inl e ↦ absurd (cc (free, p, (==_iff v x).0 e))
  | inr e ↦ rw e p
]

bound_here : (c : InferCtx) (x : ℕ) (t : Ty) → (bound_ctx c x t).subst x ≡ some t
unfolding bound_ctx
bound_here c x t = ground arith

bind_Joins :
    (f : ℕ) (c : InferCtx) (x : ℕ) (t : Ty) (d : InferCtx)
    → c.subst x ≡ none
    → bind_var f c x t ≡ ok d
    → Joins c d (var x) t × Joins c d t (var x)
bind_Joins f c x t d free h =
    let (_, e) = bind_var-eq-ok f c x t d h in
    let grown = Extends-bound c x t free in
    let here = bound_here c x t in
    rw (← e) ((grown, Agree.left here (Agree-refl _ t)), (grown, Agree.right here (Agree-refl _ t)))

module _ (rec : InferCtx → Ty → Ty → Outcome) (sound : IsSound rec) where
  unify_all-Joins :
      (c : InferCtx) (ps qs : Tys) (d : InferCtx)
      → count ps ≡ count qs
      → unify_all rec c ps qs ≡ ok d
      → JoinsAll c d ps qs
  unify_all-Joins c nil nil d n h = rw (← ok-injective c d h) ((λ v t p. p), Agree.nil)
  unify_all-Joins c nil (cons q qs) d n h = absurd (ground arith)
  unify_all-Joins c (cons p ps) nil d n h = absurd (ground arith)
  unify_all-Joins c (cons p ps) (cons q qs) d n h =
      let (c', first, rest) = and_then-eq-ok (rec c p q) (λ c'. unify_all rec c' ps qs) h in
      let (grow, same) = sound c p q c' first in
      let (grow', all) = unify_all-Joins c' ps qs d (ground arith) rest in
      ((λ v t e. grow' v t (grow v t e)), Agree.cons (Agree-extend grow' same) all)

  equal_Joins :
      (b : Bool) (c d : InferCtx) (x y : Ty)
      → (b ≡ true → x ≡ y)
      → require b c x y ≡ ok d
      → Joins c d x y
  equal_Joins b c d x y same h =
      let (t, e) = require-eq-ok b c x y d h in stays c d x y e (rw (same t) (Agree-refl _ y))

  var_Joins :
      (f : ℕ) (c : InferCtx) (x y : ℕ) (d : InferCtx)
      → c.subst x ≡ none
      → (if x == y then ok c else bind_var f c x (var y)) ≡ ok d
      → Joins c d (var x) (var y)
  var_Joins f c x y d free h = elim (Bool-cases (x == y)) [
    | inl e ↦
        stays c d (var x) (var y) (ok-injective c d (rw e at h))
          (rw ((==_iff x y).0 e) (Agree.same_var y))
    | inr e ↦ (bind_Joins f c x (var y) d free (rw e at h)).0
  ]

  function-Joins :
      (c : InferCtx) (ps qs : Tys) (r q : Ty) (d : InferCtx)
      → (if count ps == count qs
          then and_then (unify_all rec c ps qs) (λ c'. rec c' r q)
          else err c (mismatch (function ps r) (function qs q)))
        ≡ ok d
      → Joins c d (function ps r) (function qs q)
  function-Joins c ps qs r q d h = elim (Bool-cases (count ps == count qs)) [
    | inl e ↦
        let (c', params, ret) =
          and_then-eq-ok (unify_all rec c ps qs) (λ c'. rec c' r q) (rw e at h) in
        let (grow, all) = unify_all-Joins c ps qs c' ((==_iff _ _).0 e) params in
        let (grow', same) = sound c' r q d ret in
        ((λ v t p. grow' v t (grow v t p)), Agree.function (AgreeAll-extend grow' all) same)
    | inr e ↦ absurd (cc (rw e at h))
  ]

  named_Joins :
      (c : InferCtx) (d1 d2 : ℕ) (n1 n2 : String) (ps qs : Tys) (d : InferCtx)
      → (if (d1 == d2) && (count ps == count qs)
          then unify_all rec c ps qs
          else err c (mismatch (named d1 n1 ps) (named d2 n2 qs)))
        ≡ ok d
      → Joins c d (named d1 n1 ps) (named d2 n2 qs)
  named_Joins c d1 d2 n1 n2 ps qs d h = elim (Bool-cases ((d1 == d2) && (count ps == count qs))) [
    | inl e ↦
        let (ids, counts) = and-eq-true (d1 == d2) (count ps == count qs) e in
        let (grow, all) = unify_all-Joins c ps qs d ((==_iff _ _).0 counts) (rw e at h) in
        (grow, rw ((==_iff d1 d2).0 ids) (Agree.named all))
    | inr e ↦ absurd (cc (rw e at h))
  ]

  unify_step-Joins :
      (f : ℕ) (c : InferCtx) (a b : Ty) (d : InferCtx)
      → IsResolved c.subst a
      → IsResolved c.subst b
      → unify_step rec f c a b ≡ ok d
      → Joins c d a b
  unfolding unify_step
  unify_step-Joins f c error b d ra rb h =
      stays c d error b (ok-injective c d h) (Agree.error_left b)
  unify_step-Joins f c (var x) error d ra rb h =
      stays c d (var x) error (ok-injective c d h) (Agree.error_right _)
  unify_step-Joins f c (var x) (var y) d ra rb h = var_Joins f c x y d ra h
  unify_step-Joins f c (var x) b d ra rb h = (bind_Joins f c x b d ra h).0
  unify_step-Joins f c a error d ra rb h =
      stays c d a error (ok-injective c d h) (Agree.error_right a)
  unify_step-Joins f c a (var y) d ra rb h = (bind_Joins f c y a d rb h).1
  unify_step-Joins f c (primitive p) (primitive q) d ra rb h =
      equal_Joins _ c d (primitive p) (primitive q) (λ t. ap primitive (same_prim→eq p q t)) h
  unify_step-Joins f c (function ps1 r1) (function ps2 r2) d ra rb h =
      function-Joins c ps1 ps2 r1 r2 d h
  unify_step-Joins f c (named d1 n1 a1) (named d2 n2 a2) d ra rb h =
      named_Joins c d1 d2 n1 n2 a1 a2 d h
  unify_step-Joins f c (ffi_module m1) (ffi_module m2) d ra rb h =
      equal_Joins _ c d (ffi_module m1) (ffi_module m2) (λ t. ground (arith, eq_iff m1 m2)) h
  unify_step-Joins f c (ffi_instance m1 c1) (ffi_instance m2 c2) d ra rb h =
      equal_Joins _ c d (ffi_instance m1 c1) (ffi_instance m2 c2)
        (λ t. ground (arith, eq_iff m1 m2, eq_iff c1 c2)) h
  unify_step-Joins f c (opaque m1 s1) (opaque m2 s2) d ra rb h =
      equal_Joins _ c d (opaque m1 s1) (opaque m2 s2)
        (λ t. ground (arith, eq_iff m1 m2, eq_iff s1 s2)) h
  unify_step-Joins f c a b d ra rb h = absurd (cc h)

-- When `unify` succeeds, every earlier binding is kept and the two types agree under the new
-- bindings.
pub unify-Joins :
    (f : ℕ) (c : InferCtx) (a b : Ty) (d : InferCtx) → unify f c a b ≡ ok d → Joins c d a b
unfolding unify
unify-Joins zero c a b d h = absurd (cc h)
unify-Joins (suc f) c a b d h = elim (Option-cases (shallow_resolve f c.subst a)) [
  | inl e ↦ absurd (ground arith)
  | inr (a', ea) ↦ elim (Option-cases (shallow_resolve f c.subst b)) [
    | inl e ↦ absurd (ground arith)
    | inr (b', eb) ↦
        let (la, ra) = shallow_resolve-Leads f c.subst a a' ea in
        let (lb, rb) = shallow_resolve-Leads f c.subst b b' eb in
        let (grow, same) =
          unify_step-Joins (unify f) (unify-Joins f) f c a' b' d ra rb (rw (ea, eb, unify) at h) in
        (grow, Agree-left (Leads-extend grow la) (Agree-right (Leads-extend grow lb) same))
  ]
]
