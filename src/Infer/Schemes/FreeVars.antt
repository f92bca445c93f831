-- ===== src/Infer/Schemes/FreeVars.antt =====
-- The free variables of a type, and the scheme that `generalize` makes of it.
use asatsuyu.Base.{
  ℕ, zero, suc, ◌+◌, ◌≤◌, ◌≡◌, refl, ap, ◌∙◌, sym, Bool, true, false, ◌||◌, Option, none, some,
  List, [], ◌∷◌, ◌++◌, ◌==◌, any-append, arith, Option-cases, Bool-cases, inl, inr, ◌>>=◌,
}
use asatsuyu.Types.{Ty, Tys, var}
use asatsuyu.Infer.{Subst, shallow_resolve, occurs_in, occurs_step, any_ty}
use asatsuyu.Infer.Finite.{
  Finite, FiniteAll, unbound, bound, primitive, function, named, ffi_module, ffi_instance, opaque,
  fault, nil, cons,
}
use asatsuyu.Infer.Settle.{Settles, from_suc}
use asatsuyu.Infer.Schemes.{vars_of, free_step, free_vars, member}

or_false : (b : Bool) → (b || false) ≡ b
or_false true = refl
or_false false = refl

module _ (s : Subst) where
  -- The free variables at the end of the walk of `shallow_resolve`.
  record Collect (t : Ty) : Type 0 where
    goal : Ty
    fuel : ℕ
    found : List ℕ
    reaches : (g : ℕ) → fuel ≤ g → shallow_resolve g s t ≡ some goal
    collects : (g : ℕ) → fuel ≤ g → free_step (free_vars g s) goal ≡ some found

  Collect-from :
      {t : Ty} (xs : List ℕ) (n : ℕ)
      → ((g : ℕ) → shallow_resolve (suc g) s t ≡ some t)
      → ((g : ℕ) → n ≤ g → free_step (free_vars g s) t ≡ some xs)
      → Collect t
  Collect-from {t} xs n still k = record {
    goal = t;
    fuel = suc n;
    found = xs;
    reaches = from_suc (λ g. shallow_resolve g s t ≡ some t) n (λ g _. still g);
    collects = λ g lt. k g (omega arith);
  }

  collected : {t : Ty} → Collect t → Settles (λ g. free_vars g s t)
  unfolding free_vars
  collected {t} q = (
    suc q.fuel,
    q.found,
    from_suc (λ g. free_vars g s t ≡ some q.found) q.fuel
        (λ g lt. rw (q.reaches g lt) (q.collects g lt)),
  )

  mutual
    unfolding shallow_resolve

    Collect-in : {t : Ty} → Finite s t → Collect t
    Collect-in (unbound {v} e) =
        Collect-from (v ∷ []) 0 (λ g. rw (e, shallow_resolve) refl) (λ g _. refl)
    Collect-in (bound {v} e h) =
        let q = Collect-in h in
        record {
          goal = q.goal;
          fuel = suc q.fuel;
          found = q.found;
          reaches =
              from_suc (λ g. shallow_resolve g s (var v) ≡ some q.goal) q.fuel
                (λ g lt. rw (e, shallow_resolve) (q.reaches g lt));
          collects = λ g lt. q.collects g (omega arith);
        }
    Collect-in (primitive p) = Collect-from [] 0 (λ g. refl) (λ g _. refl)
    Collect-in (function hs h) =
        let (n1, xs, k1) = collect_all hs in
        let (n2, ys, k2) = collected (Collect-in h) in
        Collect-from (xs ++ ys) (n1 + n2) (λ g. refl)
          (λ g lt. rw (k1 g (omega arith), k2 g (omega arith)) refl)
    Collect-in (named hs) = let (n, xs, k) = collect_all hs in Collect-from xs n (λ g. refl) k
    Collect-in (ffi_module m) = Collect-from [] 0 (λ g. refl) (λ g _. refl)
    Collect-in (ffi_instance m c) = Collect-from [] 0 (λ g. refl) (λ g _. refl)
    Collect-in (opaque m c) = Collect-from [] 0 (λ g. refl) (λ g _. refl)
    Collect-in fault = Collect-from [] 0 (λ g. refl) (λ g _. refl)

    collect_all : {ts : Tys} → FiniteAll s ts → Settles (λ g. vars_of (free_vars g s) ts)
    collect_all nil = (0, [], λ g _. refl)
    collect_all (cons {t} {ts} h hs) =
        let (n1, xs, k1) = collected (Collect-in h) in
        let (n2, ys, k2) = collect_all hs in
        (n1 + n2, xs ++ ys, λ g lt. rw (k1 g (omega arith), k2 g (omega arith)) refl)

  -- `free_vars` returns on every finite type.
  pub free_vars-Settles : {t : Ty} → Finite s t → Settles (λ g. free_vars g s t)
  free_vars-Settles h = collected (Collect-in h)

  module _ (x : ℕ) where
    joined :
        (ys zs xs : List ℕ) (a c : Bool)
        → (xs ≡ ys ++ zs)
        → member x ys ≡ a
        → member x zs ≡ c
        → member x xs ≡ (a || c)
    joined ys zs xs a c e p q = ap (member x) e ∙ any-append (λ y. y == x) ys zs ∙ cc (p, q)

    -- Two searches one after the other, against two sets put together.
    search_both :
        (m k : Option (List ℕ)) (b c : Option Bool) (xs : List ℕ)
        → ((ys : List ℕ) → m ≡ some ys → b ≡ some (member x ys))
        → ((ys : List ℕ) → k ≡ some ys → c ≡ some (member x ys))
        → (do ys ← m; zs ← k; some (ys ++ zs)) ≡ some xs
        → (b >>= elim [ true ↦ some true | false ↦ c ]) ≡ some (member x xs)
    search_both none k b c xs hb hc h = absurd (cc h)
    search_both (some ys) none b c xs hb hc h = absurd (cc h)
    search_both (some ys) (some zs) b c xs hb hc h =
        let e : xs ≡ ys ++ zs = cc h in
        elim (Bool-cases (member x ys)) [
          | inl p ↦ rw (hb ys refl, p) (ap some (sym (joined ys zs xs true (member x zs) e p refl)))
          | inr p ↦
              rw (hb ys refl, p, hc zs refl)
                (ap some (sym (joined ys zs xs false (member x zs) e p refl)))
        ]

    empty_set : (xs : List ℕ) → [] ≡ xs → some false ≡ some (member x xs)
    empty_set xs e = ap (λ ys. some (member x ys)) e

    single : (v : ℕ) (xs : List ℕ) → v ∷ [] ≡ xs → some (v == x) ≡ some (member x xs)
    single v xs e = ap some (sym (or_false (v == x))) ∙ ap (λ ys. some (member x ys)) e

    any_ty-vars_of :
        (rec : Ty → Option (List ℕ)) (test : Ty → Option Bool)
        → ((t : Ty) (xs : List ℕ) → rec t ≡ some xs → test t ≡ some (member x xs))
        → (ts : Tys) (xs : List ℕ) → vars_of rec ts ≡ some xs
        → any_ty test ts ≡ some (member x xs)
    any_ty-vars_of rec test same Tys.nil xs h = empty_set xs (cc h)
    any_ty-vars_of rec test same (Tys.cons t ts) xs h =
        search_both (rec t) (vars_of rec ts) (test t) (any_ty test ts) xs (same t)
          (any_ty-vars_of rec test same ts) h

    step_lem :
        (rec : Ty → Option (List ℕ)) (test : Ty → Option Bool)
        → ((t : Ty) (xs : List ℕ) → rec t ≡ some xs → test t ≡ some (member x xs))
        → (t : Ty) (xs : List ℕ) → free_step rec t ≡ some xs
        → occurs_step test x t ≡ some (member x xs)
    step_lem rec test same (Ty.function ps r) xs h =
        search_both (vars_of rec ps) (rec r) (any_ty test ps) (test r) xs
          (any_ty-vars_of rec test same ps) (same r) h
    step_lem rec test same (Ty.named d n ts) xs h = any_ty-vars_of rec test same ts xs h
    step_lem rec test same (var v) xs h = single v xs (cc h)
    step_lem rec test same (Ty.primitive p) xs h = empty_set xs (cc h)
    step_lem rec test same (Ty.ffi_module m) xs h = empty_set xs (cc h)
    step_lem rec test same (Ty.ffi_instance m c) xs h = empty_set xs (cc h)
    step_lem rec test same (Ty.opaque m c) xs h = empty_set xs (cc h)
    step_lem rec test same Ty.error xs h = empty_set xs (cc h)

    -- A variable is free in a type exactly if it occurs in it.
    pub occurs_in-free_vars :
        (f : ℕ) (t : Ty) (xs : List ℕ)
        → free_vars f s t ≡ some xs
        → occurs_in f s x t ≡ some (member x xs)
    unfolding free_vars occurs_in
    occurs_in-free_vars zero t xs h = absurd (cc h)
    occurs_in-free_vars (suc f) t xs h = elim (Option-cases (shallow_resolve f s t)) [
      | inl e ↦ absurd (cc (rw e at h))
      | inr (u, e) ↦
          rw e (step_lem (free_vars f s) (occurs_in f s x) (occurs_in-free_vars f) u xs (rw e at h))
    ]
