-- ===== src/Infer/Schemes/General.antt =====
-- What `generalize` quantifies.
use asatsuyu.Base.{
  ℕ, ◌+◌, ◌<◌, ◌≡◌, refl, ap, ◌∙◌, sym, Bool, true, not, ◌&&◌, ◌||◌, some, List, [], ◌∷◌, ◌==◌,
  arith, Bool-cases, inl, inr, ==_iff, ltb,
}
use asatsuyu.Types.{Ty, TypeScheme}
use asatsuyu.Infer.{InferCtx, occurs_in, resolve}
use asatsuyu.Infer.Schemes.{member, insert_sorted, sorted_difference, generalize}
use asatsuyu.Infer.Finite.{Finite-IsAcyclic}
use asatsuyu.Infer.Settle.{resolve-Settles}
use asatsuyu.Infer.WellFormed.{IsWellFormed}
use asatsuyu.Infer.Schemes.FreeVars.{occurs_in-free_vars, free_vars-Settles}

-- Each entry is less than those behind it.
abbrev pub Ascending : List ℕ → Type 0
Ascending [] = Unit
Ascending (x ∷ xs) = ((z : ℕ) → member z xs ≡ true → x < z) × Ascending xs

member-insert_sorted :
    (x y : ℕ) (ys : List ℕ) → member x (insert_sorted y ys) ≡ ((y == x) || member x ys)
member-insert_sorted x y [] = refl
member-insert_sorted x y (z ∷ zs) = ground (arith, member-insert_sorted x y zs)

member-sorted_difference :
    (x : ℕ) (xs env : List ℕ)
    → member x (sorted_difference xs env) ≡ (member x xs && not (member x env))
unfolding sorted_difference
member-sorted_difference x [] env = refl
member-sorted_difference x (y ∷ xs) env = elim (Bool-cases (member y env)) [
  | inl p ↦ rw p (ground (arith, member-sorted_difference x xs env, alike))
  | inr p ↦ rw p (
      member-insert_sorted x y (sorted_difference xs env)
      ∙ ground (arith, member-sorted_difference x xs env, alike, p))
]
  where
    alike : (y == x) ≡ true → member x env ≡ member y env
    alike e = ap (λ z. member z env) (sym ((==_iff y x).0 e))

insert_sorted-Ascending : (x : ℕ) (ys : List ℕ) → Ascending ys → Ascending (insert_sorted x ys)
insert_sorted-Ascending x [] h = (λ z m. absurd (cc m), tt)
insert_sorted-Ascending x (y ∷ ys) (h, hs) = elim (Bool-cases (x == y)) [
  | inl e ↦ rw e (h, hs)
  | inr e ↦ elim (Bool-cases (ltb x y)) [
    | inl l ↦ rw (e, l) ((λ z m. ground (arith, h z, l, m)), (h, hs))
    | inr l ↦
        rw (e, l)
          (
            (λ z m. ground (arith, h z, e, l, m, member-insert_sorted z x ys)),
            insert_sorted-Ascending x ys hs,
          )
  ]
]

sorted_difference-Ascending : (xs env : List ℕ) → Ascending (sorted_difference xs env)
unfolding sorted_difference
sorted_difference-Ascending [] env = tt
sorted_difference-Ascending (x ∷ xs) env = elim (Bool-cases (member x env)) [
  | inl e ↦ rw e (sorted_difference-Ascending xs env)
  | inr e ↦
      rw e
        (insert_sorted-Ascending x (sorted_difference xs env) (sorted_difference-Ascending xs env))
]

-- In a well-formed context some fuel is enough for `generalize`, and its scheme is over the resolved
-- type and quantifies exactly the variables that occur in that type and are not in the environment,
-- in strictly ascending order.
pub generalize_lem :
    (c : InferCtx)
    → IsWellFormed c
    → (t : Ty) (env : List ℕ)
    → (f : ℕ) × (scheme : TypeScheme) × (generalize f c t env ≡ some scheme)
      × (resolve f c.subst t ≡ some scheme.ty)
      × Ascending scheme.vars
      × ((x : ℕ)
          → (b : Bool) × (occurs_in f c.subst x scheme.ty ≡ some b)
            × (member x scheme.vars ≡ (b && not (member x env))))
unfolding generalize
generalize_lem c wf t env =
    let (n1, r, k1) = resolve-Settles c.subst (Finite-IsAcyclic c.subst wf.acyclic t) in
    let (n2, xs, k2) = free_vars-Settles c.subst (Finite-IsAcyclic c.subst wf.acyclic r) in
    let resolved = k1 (n1 + n2) (omega arith) in
    let free = k2 (n1 + n2) (omega arith) in
    (
      n1 + n2,
      record { vars = sorted_difference xs env; ty = r },
      rw (resolved, free) refl,
      resolved,
      sorted_difference-Ascending xs env,
      λ x. (
        member x xs,
        occurs_in-free_vars c.subst x (n1 + n2) r xs free,
        member-sorted_difference x xs env,
      ),
    )
