-- ===== src/Infer.antt =====
-- asatsuyu/crates/asatsuyu-ty/src/unify.rs: the inference context and unification. The substitution
-- map is a function. `resolve`, `occurs_in` and `unify` follow bindings, so they run on fuel; `none`
-- and `out_of_fuel` mean that it ran out.
pub mod Steps
pub mod Agree
pub mod Sound
pub mod Solution
pub mod Resolve
pub mod Below
pub mod Finite
pub mod WellFormed
pub mod Schemes
pub mod Settle
pub mod Halts
use text.Mathlib.Text.{◌==◌ as str_eq}
use asatsuyu.Base.{
  ◌%◌, ℕ, zero, suc, ◌+◌, Bool, true, false, ◌&&◌, Option, none, some, List, [], ◌∷◌, ◌++◌, ◌==◌,
  not, if◌then◌else◌, ◌>>=◌, any, ltb, leb,
}
use asatsuyu.Syntax.Span.{u32_mod}
use asatsuyu.Types.{
  PrimTy, Ty, Tys, TypeScheme, primitive, function, named, ffi_module, ffi_instance, opaque, var,
  error, nil, cons,
}

pub data UnifyErrorKind : Type 0 where
  mismatch : Ty → Ty → UnifyErrorKind
  infinite_type : ℕ → Ty → UnifyErrorKind

abbrev pub Subst : Type 0
Subst = ℕ → Option Ty

pub record InferCtx : Type 0 where
  pub next_var : ℕ
  pub subst : Subst

abbrev pub new : InferCtx
new = record { next_var = 0; subst = λ _. none }

-- `HashMap::insert`
abbrev pub insert : ℕ → Ty → Subst → Subst
insert x t s v = if v == x then some t else s v

-- Allocate a variable: the new context and the type. `next_var` is a `u32`, and wraps as in a release
-- build; a build with overflow checks panics there.
unfoldable pub fresh_var : InferCtx → InferCtx × Ty
fresh_var c = (record c { next_var = (c.next_var + 1) % u32_mod }, var c.next_var)

-- Follow a chain of variables to an unbound variable or a type that is no variable.
unfoldable pub shallow_resolve : ℕ → Subst → Ty → Option Ty
shallow_resolve zero s ty = none
shallow_resolve (suc f) s (var id) = elim (s id) [
  | some bound ↦ shallow_resolve f s bound
  | none ↦ some (var id)
]
shallow_resolve (suc f) s ty = some ty

-- `iter().any(..)` with a test that may run out of fuel; it stops at the first hit.
abbrev pub any_ty : (Ty → Option Bool) → Tys → Option Bool
any_ty test nil = some false
any_ty test (cons t ts) = test t >>= elim [ true ↦ some true | false ↦ any_ty test ts ]

-- The match of `occurs_in` on the resolved type, with its recursive call.
abbrev pub occurs_step : (Ty → Option Bool) → ℕ → Ty → Option Bool
occurs_step rec x (var id) = some (id == x)
occurs_step rec x (function params ret) =
    any_ty rec params >>= elim [ true ↦ some true | false ↦ rec ret ]
occurs_step rec x (named _ _ args) = any_ty rec args
occurs_step rec x _ = some false

unfoldable pub occurs_in : ℕ → Subst → ℕ → Ty → Option Bool
occurs_in zero s x ty = none
occurs_in (suc f) s x ty = shallow_resolve f s ty >>= λ t. occurs_step (occurs_in f s x) x t

-- `iter().map(..).collect()` with a function that may run out of fuel.
abbrev pub map_ty : (Ty → Option Ty) → Tys → Option Tys
map_ty g nil = some nil
map_ty g (cons t ts) = do t' ← g t; ts' ← map_ty g ts; some (cons t' ts')

unfoldable pub resolve : ℕ → Subst → Ty → Option Ty
resolve zero s ty = none
resolve (suc f) s (var id) = elim (s id) [ some bound ↦ resolve f s bound | none ↦ some (var id) ]
resolve (suc f) s (function params ret) = do
  params' ← map_ty (resolve f s) params
  ret' ← resolve f s ret
  some (function params' ret')
resolve (suc f) s (named id name args) = do
  args' ← map_ty (resolve f s) args
  some (named id name args')
resolve (suc f) s ty = some ty

-- What a call of `unify` leaves: the context, which keeps the bindings made before an error.
pub data Outcome : Type 0 where
  out_of_fuel : Outcome
  ok : InferCtx → Outcome
  err : InferCtx → UnifyErrorKind → Outcome

abbrev pub and_then : Outcome → (InferCtx → Outcome) → Outcome
and_then out_of_fuel k = out_of_fuel
and_then (ok c) k = k c
and_then (err c e) k = err c e

-- `for (x, y) in xs.iter().zip(ys.iter()) { self.unify(x, y)?; }`
abbrev pub unify_all : (InferCtx → Ty → Ty → Outcome) → InferCtx → Tys → Tys → Outcome
unify_all rec c (cons x xs) (cons y ys) = and_then (rec c x y) (λ c'. unify_all rec c' xs ys)
unify_all rec c _ _ = ok c

abbrev pub count : Tys → ℕ
count nil = 0
count (cons _ ts) = suc (count ts)

-- Bind a variable after the occurs check.
abbrev pub bind_var : ℕ → InferCtx → ℕ → Ty → Outcome
bind_var f c x t = elim (occurs_in f c.subst x t) [
  | none ↦ out_of_fuel
  | some true ↦ err c (infinite_type x t)
  | some false ↦ ok (record c { subst = insert x t c.subst })
]

abbrev pub require : Bool → InferCtx → Ty → Ty → Outcome
require b c x y = if b then ok c else err c (mismatch x y)

-- `p == q` on primitive types.
abbrev pub same_prim : PrimTy → PrimTy → Bool
same_prim PrimTy.int PrimTy.int = true
same_prim PrimTy.float PrimTy.float = true
same_prim PrimTy.string PrimTy.string = true
same_prim PrimTy.bool PrimTy.bool = true
same_prim PrimTy.none PrimTy.none = true
same_prim _ _ = false

-- The match of `unify` on two resolved types. `f` is the fuel of the occurs check.
unfoldable pub unify_step : (InferCtx → Ty → Ty → Outcome) → ℕ → InferCtx → Ty → Ty → Outcome
unify_step rec f c error b = ok c
unify_step rec f c (var x) error = ok c
unify_step rec f c (var x) (var y) = if x == y then ok c else bind_var f c x (var y)
unify_step rec f c (var x) b = bind_var f c x b
unify_step rec f c a error = ok c
unify_step rec f c a (var y) = bind_var f c y a
unify_step rec f c (primitive p) (primitive q) =
    require (same_prim p q) c (primitive p) (primitive q)
unify_step rec f c (function ps1 r1) (function ps2 r2) =
    if count ps1 == count ps2
    then and_then (unify_all rec c ps1 ps2) (λ c'. rec c' r1 r2)
    else err c (mismatch (function ps1 r1) (function ps2 r2))
unify_step rec f c (named d1 n1 a1) (named d2 n2 a2) =
    if (d1 == d2) && (count a1 == count a2)
    then unify_all rec c a1 a2
    else err c (mismatch (named d1 n1 a1) (named d2 n2 a2))
unify_step rec f c (ffi_module m1) (ffi_module m2) =
    require (str_eq m1 m2) c (ffi_module m1) (ffi_module m2)
unify_step rec f c (ffi_instance m1 c1) (ffi_instance m2 c2) =
    require (str_eq m1 m2 && str_eq c1 c2) c (ffi_instance m1 c1) (ffi_instance m2 c2)
unify_step rec f c (opaque m1 s1) (opaque m2 s2) =
    require (str_eq m1 m2 && str_eq s1 s2) c (opaque m1 s1) (opaque m2 s2)
unify_step rec f c a b = err c (mismatch a b)

-- Resolve both sides one level, then match; the fuel bounds the depth of the calls.
unfoldable pub unify : ℕ → InferCtx → Ty → Ty → Outcome
unfolding unify_step
unify zero c a b = out_of_fuel
unify (suc f) c a b = elim (shallow_resolve f c.subst a) [
  | none ↦ out_of_fuel
  | some a' ↦ elim (shallow_resolve f c.subst b) [
    | none ↦ out_of_fuel
    | some b' ↦ unify_step (unify f) f c a' b'
  ]
]
