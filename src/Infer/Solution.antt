-- ===== src/Infer/Solution.antt =====
-- Solutions of the bindings: assignments of types to the variables. A solution gives a variable that
-- occurs in a type no larger a type. `Keeps` shows that `unify` keeps solutions.
pub mod Keeps
use text.Mathlib.Text.{◌==◌ as str_eq}
use text.Mathlib.TextPositions.{eq_refl}
use asatsuyu.Base.{
  ℕ, zero, suc, ◌+◌, ◌≤◌, ◌<◌, ◌≡◌, refl, sym, ap, ◌∙◌, Bool, true, false, ◌&&◌, Option, none, some,
  String, arith, Bool-cases, Option-cases, inl, inr, ◌==◌, ==_iff, ==_refl, if◌then◌else◌, ◌>>=◌,
  >>=-eq-some,
}
use asatsuyu.Types.{
  PrimTy, Ty, Tys, primitive, function, named, ffi_module, ffi_instance, opaque, var, error, nil,
  cons,
}
use asatsuyu.Infer.{
  Subst, InferCtx, insert, shallow_resolve, occurs_in, occurs_step, any_ty, Outcome, out_of_fuel,
  ok, err, and_then, bind_var, require, unify_all, unify_step, unify, count, mismatch, same_prim,
}
use asatsuyu.Infer.Steps.{IsResolved, Leads, here, follow, shallow_resolve-Leads, same_prim→eq}
use asatsuyu.Infer.Resolve.{same_prim_refl}

-- An assignment of a type to each variable, applied to a type.
unfoldable mutual
  pub apply : (ℕ → Ty) → Ty → Ty
  apply σ (primitive p) = primitive p
  apply σ (function ps r) = function (apply_all σ ps) (apply σ r)
  apply σ (named d n ts) = named d n (apply_all σ ts)
  apply σ (ffi_module m) = ffi_module m
  apply σ (ffi_instance m c) = ffi_instance m c
  apply σ (opaque m c) = opaque m c
  apply σ (var v) = σ v
  apply σ error = error

  pub apply_all : (ℕ → Ty) → Tys → Tys
  apply_all σ nil = nil
  apply_all σ (cons t ts) = cons (apply σ t) (apply_all σ ts)

-- The assignment gives each bound variable what its binding gets.
abbrev pub Solves : (ℕ → Ty) → Subst → Type 0
Solves σ s = (v : ℕ) (t : Ty) → s v ≡ some t → σ v ≡ apply σ t

mutual
  size : Ty → ℕ
  size (primitive p) = 1
  size (function ps r) = suc (size_all ps + size r)
  size (named d n ts) = suc (size_all ts)
  size (ffi_module m) = 1
  size (ffi_instance m c) = 1
  size (opaque m c) = 1
  size (var v) = 1
  size error = 1

  size_all : Tys → ℕ
  size_all nil = 0
  size_all (cons t ts) = size t + size_all ts

pub apply-Leads :
    (σ : ℕ → Ty) (s : Subst) {t u : Ty} → Solves σ s → Leads s t u → apply σ t ≡ apply σ u
unfolding apply
apply-Leads σ s h (here t) = refl
apply-Leads σ s h (follow e l) = h _ _ e ∙ apply-Leads σ s h l

abbrev IsCompound : Ty → Type 0
IsCompound (var y) = ⊥
IsCompound _ = Unit

shallow-compound :
    (f : ℕ) (s : Subst) (t u : Ty) → IsCompound t → shallow_resolve f s t ≡ some u → t ≡ u
unfolding shallow_resolve
shallow-compound zero s t u c h = cc
shallow-compound (suc f) s (var v) u c h = absurd c
shallow-compound (suc f) s t u c h = cc

-- A variable that occurs in a type is assigned no larger a type, and a smaller one if the type is
-- no variable.
module _ (σ : ℕ → Ty) (x : ℕ) where
  abbrev Fits : (Ty → Option Bool) → Type 0
  Fits rec = (t : Ty) → rec t ≡ some true → size (σ x) ≤ size (apply σ t)

  any_ty-Fits :
      (rec : Ty → Option Bool)
      → Fits rec
      → (ts : Tys) → any_ty rec ts ≡ some true
      → size (σ x) ≤ size_all (apply_all σ ts)
  unfolding apply size
  any_ty-Fits rec fits nil h = absurd (cc h)
  any_ty-Fits rec fits (cons t ts) h = elim (Option-cases (rec t)) [
    | inl e ↦ absurd (ground arith)
    | inr (true, e) ↦ omega (arith, fits t e)
    | inr (false, e) ↦ omega (arith, any_ty-Fits rec fits ts (ground arith))
  ]

  occurs_step-lt :
      (rec : Ty → Option Bool)
      → Fits rec
      → (t : Ty) → IsCompound t
      → occurs_step rec x t ≡ some true
      → size (σ x) < size (apply σ t)
  unfolding apply size
  occurs_step-lt rec fits (var y) c h = absurd c
  occurs_step-lt rec fits (function ps r) c h = elim (Option-cases (any_ty rec ps)) [
    | inl e ↦ absurd (ground arith)
    | inr (true, e) ↦ omega (arith, any_ty-Fits rec fits ps e)
    | inr (false, e) ↦ omega (arith, fits r (ground arith))
  ]
  occurs_step-lt rec fits (named d n ts) c h = omega (arith, any_ty-Fits rec fits ts h)
  occurs_step-lt rec fits t c h = absurd (cc h)

  occurs_step-le :
      (rec : Ty → Option Bool)
      → Fits rec
      → (t : Ty) → occurs_step rec x t ≡ some true
      → size (σ x) ≤ size (apply σ t)
  unfolding apply
  occurs_step-le rec fits (var y) h = let e : y ≡ x = ground arith in rw e (omega arith)
  occurs_step-le rec fits t h = omega (arith, occurs_step-lt rec fits t tt h)

  occurs_in-Fits : (f : ℕ) (s : Subst) → Solves σ s → Fits (occurs_in f s x)
  unfolding occurs_in
  occurs_in-Fits zero s solves t h = absurd (cc h)
  occurs_in-Fits (suc f) s solves t h =
      let (u, e, h') = >>=-eq-some (shallow_resolve f s t) _ h in
      let (l, _) = shallow_resolve-Leads f s t u e in
      rw (apply-Leads σ s solves l)
        (occurs_step-le (occurs_in f s x) (occurs_in-Fits f s solves) u h')
