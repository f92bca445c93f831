-- ===== src/Infer/Agree.antt =====
-- Agreement of two types under a substitution: equal after resolving, where `error` agrees with
-- everything and the name of a named type, which `unify` does not compare, is left aside.
use asatsuyu.Base.{ℕ, ◌≡◌, some, String}
use asatsuyu.Types.{PrimTy, Ty, Tys, var, error}
use asatsuyu.Infer.{Subst}
use asatsuyu.Infer.Steps.{Leads, here, follow}

mutual
  pub data Agree (s : Subst) : Ty → Ty → Type 0 where
    error_left : (b : Ty) → Agree s error b
    error_right : (a : Ty) → Agree s a error
    left : {v : ℕ} {t b : Ty} → s v ≡ some t → Agree s t b → Agree s (var v) b
    right : {v : ℕ} {t a : Ty} → s v ≡ some t → Agree s a t → Agree s a (var v)
    same_var : (v : ℕ) → Agree s (var v) (var v)
    primitive : (p : PrimTy) → Agree s (Ty.primitive p) (Ty.primitive p)
    function :
        {ps qs : Tys} {r q : Ty}
        → AgreeAll s ps qs
        → Agree s r q
        → Agree s (Ty.function ps r) (Ty.function qs q)
    named :
        {d : ℕ} {m n : String} {ps qs : Tys}
        → AgreeAll s ps qs
        → Agree s (Ty.named d m ps) (Ty.named d n qs)
    ffi_module : (m : String) → Agree s (Ty.ffi_module m) (Ty.ffi_module m)
    ffi_instance : (m c : String) → Agree s (Ty.ffi_instance m c) (Ty.ffi_instance m c)
    opaque : (m c : String) → Agree s (Ty.opaque m c) (Ty.opaque m c)

  pub data AgreeAll (s : Subst) : Tys → Tys → Type 0 where
    nil : AgreeAll s Tys.nil Tys.nil
    cons :
        {p q : Ty} {ps qs : Tys}
        → Agree s p q
        → AgreeAll s ps qs
        → AgreeAll s (Tys.cons p ps) (Tys.cons q qs)

-- Every binding of the first substitution is one of the second.
abbrev pub Extends : Subst → Subst → Type 0
Extends s s' = (v : ℕ) (t : Ty) → s v ≡ some t → s' v ≡ some t

mutual
  pub Agree-extend : {s s' : Subst} {a b : Ty} → Extends s s' → Agree s a b → Agree s' a b
  Agree-extend x (error_left b) = error_left b
  Agree-extend x (error_right a) = error_right a
  Agree-extend x (left e h) = left (x _ _ e) (Agree-extend x h)
  Agree-extend x (right e h) = right (x _ _ e) (Agree-extend x h)
  Agree-extend x (same_var v) = same_var v
  Agree-extend x (primitive p) = primitive p
  Agree-extend x (function ps r) = function (AgreeAll-extend x ps) (Agree-extend x r)
  Agree-extend x (named ps) = named (AgreeAll-extend x ps)
  Agree-extend x (ffi_module m) = ffi_module m
  Agree-extend x (ffi_instance m c) = ffi_instance m c
  Agree-extend x (opaque m c) = opaque m c

  pub AgreeAll-extend : {s s' : Subst} {a b : Tys} → Extends s s' → AgreeAll s a b → AgreeAll s' a b
  AgreeAll-extend x nil = nil
  AgreeAll-extend x (cons h t) = cons (Agree-extend x h) (AgreeAll-extend x t)

pub Leads-extend : {s s' : Subst} {t u : Ty} → Extends s s' → Leads s t u → Leads s' t u
Leads-extend x (here t) = here t
Leads-extend x (follow e l) = follow (x _ _ e) (Leads-extend x l)

pub Agree-left : {s : Subst} {a a' b : Ty} → Leads s a a' → Agree s a' b → Agree s a b
Agree-left (here _) h = h
Agree-left (follow e l) h = left e (Agree-left l h)

pub Agree-right : {s : Subst} {a b b' : Ty} → Leads s b b' → Agree s a b' → Agree s a b
Agree-right (here _) h = h
Agree-right (follow e l) h = right e (Agree-right l h)

mutual
  pub Agree-refl : (s : Subst) (t : Ty) → Agree s t t
  Agree-refl s (Ty.primitive p) = primitive p
  Agree-refl s (Ty.function ps r) = function (AgreeAll-refl s ps) (Agree-refl s r)
  Agree-refl s (Ty.named d n ps) = named (AgreeAll-refl s ps)
  Agree-refl s (Ty.ffi_module m) = ffi_module m
  Agree-refl s (Ty.ffi_instance m c) = ffi_instance m c
  Agree-refl s (Ty.opaque m c) = opaque m c
  Agree-refl s (var v) = same_var v
  Agree-refl s error = error_left error

  AgreeAll-refl : (s : Subst) (ts : Tys) → AgreeAll s ts ts
  AgreeAll-refl s Tys.nil = nil
  AgreeAll-refl s (Tys.cons t ts) = cons (Agree-refl s t) (AgreeAll-refl s ts)
