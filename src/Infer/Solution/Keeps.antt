-- ===== src/Infer/Solution/Keeps.antt =====
-- Every step of `unify` keeps a solution.
use text.Mathlib.TextPositions.{eq_refl}
use asatsuyu.Base.{
  ℕ, zero, suc, ◌≡◌, refl, sym, ap, ◌∙◌, Bool, true, false, none, some, arith, Bool-cases,
  Option-cases, inl, inr, ◌==◌, ==_iff, ==_refl, if◌then◌else◌, >>=-eq-some,
}
use asatsuyu.Types.{
  Ty, Tys, primitive, function, named, ffi_module, ffi_instance, opaque, var, error, nil, cons,
}
use asatsuyu.Infer.{
  Subst, InferCtx, insert, shallow_resolve, occurs_in, Outcome, out_of_fuel, ok, err, and_then,
  bind_var, require, unify_all, unify_step, unify, count,
}
use asatsuyu.Infer.Steps.{IsResolved, shallow_resolve-Leads}
use asatsuyu.Infer.Resolve.{same_prim_refl}
use asatsuyu.Infer.Solution.{
  apply, apply_all, Solves, size, apply-Leads, IsCompound, shallow-compound, occurs_step-lt,
  occurs_in-Fits,
}

-- The outcome keeps the assignment: no error, and a solution of the new bindings.
abbrev pub Keeps : (ℕ → Ty) → Outcome → Type 0
Keeps σ out_of_fuel = Unit
Keeps σ (ok d) = Solves σ d.subst
Keeps σ (err d e) = ⊥

and_then-Keeps :
    (σ : ℕ → Ty) (m : Outcome) (k : InferCtx → Outcome)
    → Keeps σ m
    → ((d : InferCtx) → Solves σ d.subst → Keeps σ (k d))
    → Keeps σ (and_then m k)
and_then-Keeps σ out_of_fuel k h next = tt
and_then-Keeps σ (ok d) k h next = next d h
and_then-Keeps σ (err d e) k h next = h

module _ (σ : ℕ → Ty) where
  abbrev KeepsAll : (InferCtx → Ty → Ty → Outcome) → Type 0
  KeepsAll rec =
      (c : InferCtx) (a b : Ty) → Solves σ c.subst → apply σ a ≡ apply σ b → Keeps σ (rec c a b)

  Solves-insert :
      (s : Subst) (x : ℕ) (t : Ty) → Solves σ s → σ x ≡ apply σ t → Solves σ (insert x t s)
  Solves-insert s x t h e v u p = elim (Bool-cases (v == x)) [
    | inl hit ↦ cc (e, (==_iff v x).0 hit, rw hit at p)
    | inr miss ↦ h v u (rw miss at p)
  ]

  bind_var-Keeps :
      (f : ℕ) (c : InferCtx) (x : ℕ) (t : Ty)
      → Solves σ c.subst
      → σ x ≡ apply σ t
      → ¬ (occurs_in f c.subst x t ≡ some true)
      → Keeps σ (bind_var f c x t)
  bind_var-Keeps f c x t h e free = elim (Option-cases (occurs_in f c.subst x t)) [
    | inl p ↦ rw (p, Keeps) tt
    | inr (true, p) ↦ absurd (free p)
    | inr (false, p) ↦ rw (p, Keeps) (Solves-insert c.subst x t h e)
  ]

  -- A compound type is not assigned to a variable that occurs in it.
  compound-free :
      (f : ℕ) (s : Subst) (x : ℕ) (t : Ty)
      → Solves σ s
      → IsCompound t
      → σ x ≡ apply σ t
      → ¬ (occurs_in f s x t ≡ some true)
  unfolding occurs_in
  compound-free zero s x t h c e p = cc p
  compound-free (suc f) s x t h c e p =
      let (u, q, k) = >>=-eq-some (shallow_resolve f s t) _ p in
      let same = shallow-compound f s t u c q in
      let lt =
        occurs_step-lt σ x (occurs_in f s x) (occurs_in-Fits σ x f s h) t c (rw (← same) at k) in
      absurd (omega (arith, ap size e))

  -- A distinct unbound variable does not occur.
  variable-free :
      (f : ℕ) (s : Subst) (x y : ℕ)
      → s y ≡ none
      → (x == y) ≡ false
      → ¬ (occurs_in f s x (var y) ≡ some true)
  unfolding occurs_in shallow_resolve
  variable-free zero s x y free e p = cc p
  variable-free (suc zero) s x y free e p = cc p
  variable-free (suc (suc f)) s x y free e p = ground arith

  unify_all-Keeps :
      (rec : InferCtx → Ty → Ty → Outcome)
      → KeepsAll rec
      → (c : InferCtx) (ps qs : Tys) → Solves σ c.subst
      → apply_all σ ps ≡ apply_all σ qs
      → Keeps σ (unify_all rec c ps qs)
  unfolding apply
  unify_all-Keeps rec keep c nil qs h e = h
  unify_all-Keeps rec keep c (cons p ps) nil h e = h
  unify_all-Keeps rec keep c (cons p ps) (cons q qs) h e =
      and_then-Keeps σ (rec c p q) (λ c'. unify_all rec c' ps qs) (keep c p q h (cc e))
        (λ d k. unify_all-Keeps rec keep d ps qs k (cc e))

  count_eq : (ps qs : Tys) → apply_all σ ps ≡ apply_all σ qs → count ps ≡ count qs
  unfolding apply
  count_eq nil nil e = refl
  count_eq nil (cons q qs) e = absurd (cc e)
  count_eq (cons p ps) nil e = absurd (cc e)
  count_eq (cons p ps) (cons q qs) e = ap suc (count_eq ps qs (cc e))

  var-Keeps :
      (f : ℕ) (c : InferCtx) (x y : ℕ)
      → Solves σ c.subst
      → c.subst y ≡ none
      → σ x ≡ σ y
      → Keeps σ (if x == y then ok c else bind_var f c x (var y))
  unfolding apply
  var-Keeps f c x y h free e = elim (Bool-cases (x == y)) [
    | inl p ↦ rw p h
    | inr p ↦ rw p (bind_var-Keeps f c x (var y) h e (variable-free f c.subst x y free p))
  ]

  compound-Keeps :
      (f : ℕ) (c : InferCtx) (x : ℕ) (t : Ty)
      → Solves σ c.subst
      → IsCompound t
      → σ x ≡ apply σ t
      → Keeps σ (bind_var f c x t)
  compound-Keeps f c x t h k e = bind_var-Keeps f c x t h e (compound-free f c.subst x t h k e)

  require-Keeps :
      (b : Bool) (c : InferCtx) (x y : Ty) → Solves σ c.subst → b ≡ true → Keeps σ (require b c x y)
  require-Keeps b c x y h e = rw e h

module _ (σ : ℕ → Ty) (rec : InferCtx → Ty → Ty → Outcome) (keep : KeepsAll σ rec) where
  unify_step-Keeps :
      (f : ℕ) (c : InferCtx) (a b : Ty)
      → Solves σ c.subst
      → IsResolved c.subst b
      → apply σ a ≡ apply σ b
      → Keeps σ (unify_step rec f c a b)
  unfolding unify_step apply
  unify_step-Keeps f c error b h rb e = h
  unify_step-Keeps f c (var x) error h rb e = h
  unify_step-Keeps f c (var x) (var y) h rb e = var-Keeps σ f c x y h rb e
  unify_step-Keeps f c (var x) b h rb e = compound-Keeps σ f c x b h tt e
  unify_step-Keeps f c a error h rb e = h
  unify_step-Keeps f c a (var y) h rb e = compound-Keeps σ f c y a h tt (sym e)
  unify_step-Keeps f c (primitive p) (primitive q) h rb e =
      let same : p ≡ q = cc in
      require-Keeps σ _ c (primitive p) (primitive q) h (rw same (same_prim_refl q))
  unify_step-Keeps f c (function ps1 r1) (function ps2 r2) h rb e =
      let params : apply_all σ ps1 ≡ apply_all σ ps2 = cc in
      let t = (==_iff _ _).1 (count_eq σ ps1 ps2 params) in
      rw t (
        and_then-Keeps σ (unify_all rec c ps1 ps2) (λ c'. rec c' r1 r2)
          (unify_all-Keeps σ rec keep c ps1 ps2 h params) (λ d k. keep d r1 r2 k (cc e)))
  unify_step-Keeps f c (named d1 n1 a1) (named d2 n2 a2) h rb e =
      let args : apply_all σ a1 ≡ apply_all σ a2 = cc in
      let ids : d1 ≡ d2 = cc in
      let t = (==_iff _ _).1 (count_eq σ a1 a2 args) in
      rw (ids, ==_refl d2, t) (unify_all-Keeps σ rec keep c a1 a2 h args)
  unify_step-Keeps f c (ffi_module m1) (ffi_module m2) h rb e =
      let same : m1 ≡ m2 = cc in
      require-Keeps σ _ c (ffi_module m1) (ffi_module m2) h (rw same (eq_refl m2))
  unify_step-Keeps f c (ffi_instance m1 c1) (ffi_instance m2 c2) h rb e =
      let same : m1 ≡ m2 = cc in
      let same' : c1 ≡ c2 = cc in
      require-Keeps σ _ c (ffi_instance m1 c1) (ffi_instance m2 c2) h
        (rw (same, same', eq_refl m2, eq_refl c2) refl)
  unify_step-Keeps f c (opaque m1 s1) (opaque m2 s2) h rb e =
      let same : m1 ≡ m2 = cc in
      let same' : s1 ≡ s2 = cc in
      require-Keeps σ _ c (opaque m1 s1) (opaque m2 s2) h
        (rw (same, same', eq_refl m2, eq_refl s2) refl)
  unify_step-Keeps f c a b h rb e = absurd (cc e)

-- An assignment that solves the bindings and makes the two types equal solves the bindings that
-- `unify` leaves, and `unify` gives no error.
pub unify-Keeps :
    (σ : ℕ → Ty) (f : ℕ) (c : InferCtx) (a b : Ty)
    → Solves σ c.subst
    → apply σ a ≡ apply σ b
    → Keeps σ (unify f c a b)
unfolding unify
unify-Keeps σ zero c a b h e = tt
unify-Keeps σ (suc f) c a b h e = elim (Option-cases (shallow_resolve f c.subst a)) [
  | inl p ↦ rw (p, unify) tt
  | inr (a', ea) ↦ elim (Option-cases (shallow_resolve f c.subst b)) [
    | inl p ↦ rw (ea, p, unify) tt
    | inr (b', eb) ↦
        let la = (shallow_resolve-Leads f c.subst a a' ea).0 in
        let (lb, rb) = shallow_resolve-Leads f c.subst b b' eb in
        let same : apply σ a' ≡ apply σ b' =
          sym (apply-Leads σ c.subst h la) ∙ e ∙ apply-Leads σ c.subst h lb in
        rw (ea, eb, unify) (unify_step-Keeps σ (unify f) (unify-Keeps σ f) f c a' b' h rb same)
  ]
]
