-- ===== src/Infer/Schemes.antt =====
-- `apply_mapping`, `instantiate`, `free_vars` and `generalize` of unify.rs. The map of the quantified
-- variables is a function, and a set of variables is a list, in which order and repetition do not
-- count.
pub mod Fresh
pub mod FreeVars
pub mod General
use asatsuyu.Base.{
  ℕ, zero, suc, Bool, true, false, not, Option, none, some, List, [], ◌∷◌, ◌++◌, ◌==◌,
  if◌then◌else◌, ◌>>=◌, any, ltb,
}
use asatsuyu.Types.{
  Ty, Tys, TypeScheme, primitive, function, named, ffi_module, ffi_instance, opaque, var, error,
  nil, cons,
}
use asatsuyu.Infer.{InferCtx, Subst, fresh_var, shallow_resolve, resolve}

unfoldable mutual
  pub apply_mapping : (ℕ → Option Ty) → Ty → Ty
  apply_mapping mapping (var id) = elim (mapping id) [ some t ↦ t | none ↦ var id ]
  apply_mapping mapping (function params ret) =
      function (apply_mapping_all mapping params) (apply_mapping mapping ret)
  apply_mapping mapping (named id name args) = named id name (apply_mapping_all mapping args)
  apply_mapping mapping (primitive p) = primitive p
  apply_mapping mapping (ffi_module m) = ffi_module m
  apply_mapping mapping (ffi_instance m c) = ffi_instance m c
  apply_mapping mapping (opaque m s) = opaque m s
  apply_mapping mapping error = error

  pub apply_mapping_all : (ℕ → Option Ty) → Tys → Tys
  apply_mapping_all mapping nil = nil
  apply_mapping_all mapping (cons t ts) =
      cons (apply_mapping mapping t) (apply_mapping_all mapping ts)

-- A fresh variable for each entry, in order; for equal entries the last one stays in the map.
unfoldable pub fresh_all : InferCtx → List ℕ → InferCtx × (ℕ → Option Ty)
unfolding fresh_var
fresh_all c [] = (c, λ _. none)
fresh_all c (v ∷ vs) =
    let (after, fresh) = fresh_var c in
    let (last, mapping) = fresh_all after vs in
    (last, λ w. elim (mapping w) [ some t ↦ some t | none ↦ if w == v then some fresh else none ])

-- The result of a scheme without variables is its type, and nothing is allocated.
unfoldable pub instantiate : InferCtx → TypeScheme → InferCtx × Ty
unfolding fresh_all apply_mapping
instantiate c scheme = elim scheme.vars [
  | [] ↦ (c, scheme.ty)
  | v ∷ vs ↦ let (after, mapping) = fresh_all c (v ∷ vs) in (after, apply_mapping mapping scheme.ty)
]

-- `for p in &params { s.extend(self.free_vars(p)); }`
abbrev pub vars_of : (Ty → Option (List ℕ)) → Tys → Option (List ℕ)
vars_of rec nil = some []
vars_of rec (cons t ts) = do xs ← rec t; ys ← vars_of rec ts; some (xs ++ ys)

-- The match of `free_vars` on the resolved type, with its recursive call.
abbrev pub free_step : (Ty → Option (List ℕ)) → Ty → Option (List ℕ)
free_step rec (var id) = some (id ∷ [])
free_step rec (function params ret) = do xs ← vars_of rec params; ys ← rec ret; some (xs ++ ys)
free_step rec (named _ _ args) = vars_of rec args
free_step rec _ = some []

unfoldable pub free_vars : ℕ → Subst → Ty → Option (List ℕ)
unfolding shallow_resolve
free_vars zero s ty = none
free_vars (suc f) s ty = shallow_resolve f s ty >>= free_step (free_vars f s)

-- `set.contains(&x)`
abbrev pub member : ℕ → List ℕ → Bool
member x xs = any (λ y. y == x) xs

-- Collecting a set into a vector in ascending order, without the variables of the environment.
abbrev pub insert_sorted : ℕ → List ℕ → List ℕ
insert_sorted x [] = x ∷ []
insert_sorted x (y ∷ ys) =
    let rest = insert_sorted x ys in
    if x == y then y ∷ ys else (if ltb x y then x ∷ y ∷ ys else y ∷ rest)

unfoldable pub sorted_difference : List ℕ → List ℕ → List ℕ
sorted_difference [] env = []
sorted_difference (x ∷ xs) env =
    let rest = sorted_difference xs env in if member x env then rest else insert_sorted x rest

unfoldable pub generalize : ℕ → InferCtx → Ty → List ℕ → Option TypeScheme
unfolding resolve free_vars sorted_difference
generalize f c ty env = do
  resolved ← resolve f c.subst ty
  ty_vars ← free_vars f c.subst resolved
  some (record { vars = sorted_difference ty_vars env; ty = resolved })
