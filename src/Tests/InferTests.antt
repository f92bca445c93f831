-- ===== src/Tests/InferTests.antt =====
-- Unification of `(v0) -> Int` with `(String) -> v1`.
use asatsuyu.Base.{
  Bool, some, ◌&&◌, not, ◌<◌, [], ◌∷◌, any, ◌==◌, ℕ, zero, ◌≤◌, ◌≡◌, refl, true, none, arith,
}
use asatsuyu.Types.{TypeScheme, Ty, PrimTy, primitive, function, var, nil, cons}
use asatsuyu.Infer.{
  InferCtx, new, insert, fresh_var, unify, ok, resolve, shallow_resolve, occurs_in,
}
use asatsuyu.Infer.Agree.{Agree}
use asatsuyu.Infer.Sound.{Joins, unify-Joins}
use asatsuyu.Infer.Resolve.{alike, alike-unify}
use asatsuyu.Infer.Solution.{Solves, apply}
use asatsuyu.Infer.Solution.Keeps.{Keeps, unify-Keeps}
use asatsuyu.Infer.Below.{Below, Holds}
use asatsuyu.Infer.WellFormed.{
  IsWellFormed, AllocatedBelow, new-IsWellFormed, unify-IsWellFormed, fresh_var-IsWellFormed,
}
use asatsuyu.Infer.Halts.{Stable}
use asatsuyu.Infer.Schemes.{instantiate, generalize, member, free_vars, sorted_difference}
use asatsuyu.Infer.Schemes.General.{Ascending, generalize_lem}
use asatsuyu.Infer.Schemes.Fresh.{Avoids, instantiate-IsWellFormed}
use asatsuyu.Infer.Settle.{Settles}
use asatsuyu.Infer.Halts.Total.{resolve_total}
use asatsuyu.Infer.Halts.Descent.{unify-Stable, unify_most_general}

abbrev int : Ty
int = primitive PrimTy.int

abbrev string : Ty
string = primitive PrimTy.string

abbrev two_vars : InferCtx
two_vars = record new { next_var = 2 }

abbrev left : Ty
left = function (cons (var 0) nil) int

abbrev right : Ty
right = function (cons string nil) (var 1)

abbrev bound : InferCtx
bound = record { next_var = 2; subst = insert 1 int (insert 0 string new.subst) }

abbrev solution : ℕ → Ty
solution zero = string
solution _ = int

two_vars-IsWellFormed : IsWellFormed two_vars
unfolding fresh_var
two_vars-IsWellFormed =
    (fresh_var-IsWellFormed (fresh_var new).0 (omega arith)
      (fresh_var-IsWellFormed new (omega arith) new-IsWellFormed).0).0

fresh_var-IsWellFormed_example :
    IsWellFormed (fresh_var new).0
    × Below (fresh_var new).0.next_var (fresh_var new).1
    × (¬ Below new.next_var (fresh_var new).1)
    × ((fresh_var new).0.subst new.next_var ≡ none)
fresh_var-IsWellFormed_example = fresh_var-IsWellFormed new (omega arith) new-IsWellFormed

unify_run : unify 5 two_vars left right ≡ ok bound
unfolding unify shallow_resolve occurs_in
unify_run = refl

unify-Joins_example : Joins two_vars bound left right
unify-Joins_example = unify-Joins 5 two_vars left right bound unify_run

alike-unify_example : alike (function (cons string nil) int) (function (cons string nil) int) ≡ true
unfolding resolve
alike-unify_example =
    alike-unify 5 two_vars left right bound unify_run 3 3 (function (cons string nil) int)
      (function (cons string nil) int) refl refl

no_binding-Solves : Solves solution two_vars.subst
no_binding-Solves v t e = absurd (cc e)

unify-Keeps_example : Keeps solution (unify 5 two_vars left right)
unfolding apply
unify-Keeps_example = unify-Keeps solution 5 two_vars left right no_binding-Solves refl

unify-IsWellFormed_example : Holds 2 (AllocatedBelow 2) (unify 5 two_vars left right)
unify-IsWellFormed_example =
    unify-IsWellFormed 5 two_vars left right two_vars-IsWellFormed ((omega arith, tt), tt)
      ((tt, tt), omega arith)

unify-Stable_example : Stable (λ g. unify g two_vars left right)
unify-Stable_example =
    unify-Stable two_vars left right two_vars-IsWellFormed ((omega arith, tt), tt)
      ((tt, tt), omega arith)

unify_most_general_example :
    (n : ℕ) × (d : InferCtx) × ((g : ℕ) → n ≤ g → unify g two_vars left right ≡ ok d)
    × IsWellFormed d
    × Agree d.subst left right
    × ((τ : ℕ → Ty) → Solves τ two_vars.subst → apply τ left ≡ apply τ right → Solves τ d.subst)
unfolding apply
unify_most_general_example =
    unify_most_general two_vars left right solution two_vars-IsWellFormed ((omega arith, tt), tt)
      ((tt, tt), omega arith) no_binding-Solves refl

resolve_total_example : Settles (λ g. resolve g two_vars.subst left)
resolve_total_example = resolve_total two_vars left two_vars-IsWellFormed

abbrev one_quantified : TypeScheme
one_quantified = record { vars = 0 ∷ []; ty = function (cons (var 0) nil) (var 1) }

zero_listed : (v : ℕ) → any (λ u. v == u) (0 ∷ []) ≡ true → v < 2
zero_listed v h = ground arith

instantiate-IsWellFormed_example :
    IsWellFormed (instantiate two_vars one_quantified).0
    × Below (instantiate two_vars one_quantified).0.next_var (instantiate two_vars one_quantified).1
    × Avoids (λ v. any (λ u. v == u) (0 ∷ [])) (instantiate two_vars one_quantified).1
instantiate-IsWellFormed_example =
    instantiate-IsWellFormed two_vars one_quantified (omega arith) two_vars-IsWellFormed
      ((omega arith, tt), omega arith) zero_listed

-- A function from one variable to another, of which one is in the environment.
abbrev one_to_zero : Ty
one_to_zero = function (cons (var 1) nil) (var 0)

generalize_lem_example :
    (f : ℕ) × (scheme : TypeScheme) × (generalize f two_vars one_to_zero (0 ∷ []) ≡ some scheme)
    × (resolve f two_vars.subst one_to_zero ≡ some scheme.ty)
    × Ascending scheme.vars
    × ((x : ℕ)
        → (b : Bool) × (occurs_in f two_vars.subst x scheme.ty ≡ some b)
          × (member x scheme.vars ≡ (b && not (member x (0 ∷ [])))))
generalize_lem_example = generalize_lem two_vars two_vars-IsWellFormed one_to_zero (0 ∷ [])

generalize_run :
    generalize 3 two_vars one_to_zero (0 ∷ []) ≡ some (record { vars = 1 ∷ []; ty = one_to_zero })
unfolding generalize shallow_resolve resolve free_vars sorted_difference
generalize_run = refl
