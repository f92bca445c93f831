-- ===== src/Infer/Finite.antt =====
-- Types that resolve to a finite type. The occurs check keeps every type finite.
use asatsuyu.Base.{
  ℕ, zero, suc, ◌≡◌, refl, Bool, true, false, Option, none, some, String, arith, Bool-cases,
  Option-cases, inl, inr, ◌==◌, ==_iff, >>=-eq-some,
}
use asatsuyu.Types.{PrimTy, Ty, Tys, var, error}
use asatsuyu.Infer.{Subst, insert, shallow_resolve, occurs_in, occurs_step, any_ty}
use asatsuyu.Infer.Steps.{IsResolved, Leads, here, follow, shallow_resolve-Leads}
use asatsuyu.Infer.Agree.{Extends, Leads-extend}

mutual
  pub data Finite (s : Subst) : Ty → Type 0 where
    unbound : {v : ℕ} → s v ≡ none → Finite s (var v)
    bound : {v : ℕ} {t : Ty} → s v ≡ some t → Finite s t → Finite s (var v)
    primitive : (p : PrimTy) → Finite s (Ty.primitive p)
    function : {ps : Tys} {r : Ty} → FiniteAll s ps → Finite s r → Finite s (Ty.function ps r)
    named : {d : ℕ} {n : String} {ts : Tys} → FiniteAll s ts → Finite s (Ty.named d n ts)
    ffi_module : (m : String) → Finite s (Ty.ffi_module m)
    ffi_instance : (m c : String) → Finite s (Ty.ffi_instance m c)
    opaque : (m c : String) → Finite s (Ty.opaque m c)
    fault : Finite s error

  pub data FiniteAll (s : Subst) : Tys → Type 0 where
    nil : FiniteAll s Tys.nil
    cons : {t : Ty} {ts : Tys} → Finite s t → FiniteAll s ts → FiniteAll s (Tys.cons t ts)

pub Finite-Leads : {s : Subst} {t u : Ty} → Leads s t u → Finite s u → Finite s t
Finite-Leads (here t) h = h
Finite-Leads (follow e l) h = bound e (Finite-Leads l h)

-- After a variable that does not occur in `b` is bound to `b`, all that was finite stays finite.
module _ (s : Subst) (x : ℕ) (b : Ty) (free : s x ≡ none) where
  insert-ne : (v : ℕ) → (v == x) ≡ false → insert x b s v ≡ s v
  insert-ne v e = rw e

  Extends-insert : Extends s (insert x b s)
  Extends-insert v t p = elim (Bool-cases (v == x)) [
    | inl e ↦ absurd (cc (free, p, (==_iff v x).0 e))
    | inr e ↦ rw e p
  ]

  abbrev Clears : (Ty → Option Bool) → Type 0
  Clears rec = (t : Ty) → rec t ≡ some false → Finite (insert x b s) t

  any_ty-Clears :
      (rec : Ty → Option Bool)
      → Clears rec
      → (ts : Tys) → any_ty rec ts ≡ some false
      → FiniteAll (insert x b s) ts
  any_ty-Clears rec clears Tys.nil h = nil
  any_ty-Clears rec clears (Tys.cons t ts) h = elim (Option-cases (rec t)) [
    | inl e ↦ absurd (ground arith)
    | inr (true, e) ↦ absurd (ground arith)
    | inr (false, e) ↦ cons (clears t e) (any_ty-Clears rec clears ts (ground arith))
  ]

  occurs_step-Clears :
      (rec : Ty → Option Bool)
      → Clears rec
      → (t : Ty) → IsResolved s t
      → occurs_step rec x t ≡ some false
      → Finite (insert x b s) t
  occurs_step-Clears rec clears (var y) r h =
      let e : (y == x) ≡ false = cc in unbound (rw (insert-ne y e) r)
  occurs_step-Clears rec clears (Ty.function ps q) r h = elim (Option-cases (any_ty rec ps)) [
    | inl e ↦ absurd (ground arith)
    | inr (true, e) ↦ absurd (ground arith)
    | inr (false, e) ↦ function (any_ty-Clears rec clears ps e) (clears q (ground arith))
  ]
  occurs_step-Clears rec clears (Ty.named d n ts) r h = named (any_ty-Clears rec clears ts h)
  occurs_step-Clears rec clears (Ty.primitive p) r h = primitive p
  occurs_step-Clears rec clears (Ty.ffi_module m) r h = ffi_module m
  occurs_step-Clears rec clears (Ty.ffi_instance m c) r h = ffi_instance m c
  occurs_step-Clears rec clears (Ty.opaque m c) r h = opaque m c
  occurs_step-Clears rec clears error r h = fault

  pub occurs_in-Clears : (f : ℕ) → Clears (occurs_in f s x)
  unfolding occurs_in
  occurs_in-Clears zero t h = absurd (cc h)
  occurs_in-Clears (suc f) t h =
      let (u, e, k) = >>=-eq-some (shallow_resolve f s t) _ h in
      let (l, r) = shallow_resolve-Leads f s t u e in
      Finite-Leads (Leads-extend Extends-insert l)
        (occurs_step-Clears (occurs_in f s x) (occurs_in-Clears f) u r k)

module _ (s : Subst) (x : ℕ) (b : Ty) (ends : Finite (insert x b s) b) where
  mutual
    Finite-insert : {t : Ty} → Finite s t → Finite (insert x b s) t
    Finite-insert (unbound {v} e) = elim (Bool-cases (v == x)) [
      | inl p ↦ bound (rw p refl) ends
      | inr p ↦ unbound (rw p e)
    ]
    Finite-insert (bound {v} e h) = elim (Bool-cases (v == x)) [
      | inl p ↦ bound (rw p refl) ends
      | inr p ↦ bound (rw p e) (Finite-insert h)
    ]
    Finite-insert (primitive p) = primitive p
    Finite-insert (function ps r) = function (FiniteAll-insert ps) (Finite-insert r)
    Finite-insert (named ts) = named (FiniteAll-insert ts)
    Finite-insert (ffi_module m) = ffi_module m
    Finite-insert (ffi_instance m c) = ffi_instance m c
    Finite-insert (opaque m c) = opaque m c
    Finite-insert fault = fault

    FiniteAll-insert : {ts : Tys} → FiniteAll s ts → FiniteAll (insert x b s) ts
    FiniteAll-insert nil = nil
    FiniteAll-insert (cons h t) = cons (Finite-insert h) (FiniteAll-insert t)

-- No chain of bindings leads back into itself.
abbrev pub IsAcyclic : Subst → Type 0
IsAcyclic s = (v : ℕ) → Finite s (var v)

mutual
  pub Finite-IsAcyclic : (s : Subst) → IsAcyclic s → (t : Ty) → Finite s t
  Finite-IsAcyclic s h (var v) = h v
  Finite-IsAcyclic s h (Ty.primitive p) = primitive p
  Finite-IsAcyclic s h (Ty.function ps r) =
      function (FiniteAll-IsAcyclic s h ps) (Finite-IsAcyclic s h r)
  Finite-IsAcyclic s h (Ty.named d n ts) = named (FiniteAll-IsAcyclic s h ts)
  Finite-IsAcyclic s h (Ty.ffi_module m) = ffi_module m
  Finite-IsAcyclic s h (Ty.ffi_instance m c) = ffi_instance m c
  Finite-IsAcyclic s h (Ty.opaque m c) = opaque m c
  Finite-IsAcyclic s h error = fault

  FiniteAll-IsAcyclic : (s : Subst) → IsAcyclic s → (ts : Tys) → FiniteAll s ts
  FiniteAll-IsAcyclic s h Tys.nil = nil
  FiniteAll-IsAcyclic s h (Tys.cons t ts) =
      cons (Finite-IsAcyclic s h t) (FiniteAll-IsAcyclic s h ts)

-- Binding a variable that the occurs check did not find keeps the bindings acyclic.
pub insert-IsAcyclic :
    (f : ℕ) (s : Subst) (x : ℕ) (b : Ty)
    → s x ≡ none
    → occurs_in f s x b ≡ some false
    → IsAcyclic s
    → IsAcyclic (insert x b s)
insert-IsAcyclic f s x b free clear h v =
    Finite-insert s x b (occurs_in-Clears s x b free f b clear) (h v)
