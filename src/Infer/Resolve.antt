-- ===== src/Infer/Resolve.antt =====
-- What `resolve` returns: one result whatever the fuel, and equal results for types that agree.
use text.Mathlib.Text.{◌==◌ as str_eq}
use text.Mathlib.TextPositions.{eq_refl}
use asatsuyu.Base.{
  ℕ, zero, suc, ◌≡◌, refl, Bool, true, false, ◌&&◌, Option, some, String, Option-cases, inl, inr,
  ◌==◌, ==_refl, >>=-eq-some,
}
use asatsuyu.Types.{
  PrimTy, Ty, Tys, primitive, function, named, ffi_module, ffi_instance, opaque, var, error, nil,
  cons,
}
use asatsuyu.Infer.{Subst, InferCtx, ok, resolve, map_ty, unify, same_prim}
use asatsuyu.Infer.Agree
use asatsuyu.Infer.Agree.{Agree, AgreeAll}
use asatsuyu.Infer.Sound.{unify-Joins}

-- Equality of resolved types up to `error`, which stands for any type, and the names of named types.
unfoldable mutual
  pub alike : Ty → Ty → Bool
  alike error b = true
  alike (var x) error = true
  alike (var x) (var y) = x == y
  alike a error = true
  alike (primitive p) (primitive q) = same_prim p q
  alike (function ps r) (function qs q) = alike_all ps qs && alike r q
  alike (named d n ps) (named e m qs) = (d == e) && alike_all ps qs
  alike (ffi_module m) (ffi_module n) = str_eq m n
  alike (ffi_instance m c) (ffi_instance n d) = str_eq m n && str_eq c d
  alike (opaque m c) (opaque n d) = str_eq m n && str_eq c d
  alike a b = false

  pub alike_all : Tys → Tys → Bool
  alike_all nil nil = true
  alike_all (cons p ps) (cons q qs) = alike p q && alike_all ps qs
  alike_all ps qs = false

alike-error : (a : Ty) → alike a error ≡ true
unfolding alike
alike-error error = refl
alike-error _ = refl

pub same_prim_refl : (p : PrimTy) → same_prim p p ≡ true
same_prim_refl PrimTy.int = refl
same_prim_refl _ = refl

mutual
  unfolding alike

  alike_refl : (a : Ty) → alike a a ≡ true
  alike_refl (primitive p) = same_prim_refl p
  alike_refl (function ps r) = rw (alike_all_refl ps, alike_refl r)
  alike_refl (named d n ps) = rw (==_refl d, alike_all_refl ps)
  alike_refl (ffi_module m) = eq_refl m
  alike_refl (ffi_instance m c) = simp (eq_refl)
  alike_refl (opaque m c) = simp (eq_refl)
  alike_refl (var x) = ==_refl x
  alike_refl error = refl

  alike_all_refl : (a : Tys) → alike_all a a ≡ true
  alike_all_refl nil = refl
  alike_all_refl (cons t ts) = rw (alike_refl t, alike_all_refl ts)

abbrev IsUnique : (Ty → Option Ty) → (Ty → Option Ty) → Type 0
IsUnique g h = (t r r' : Ty) → g t ≡ some r → h t ≡ some r' → r ≡ r'

map_ty_unique :
    (g h : Ty → Option Ty)
    → IsUnique g h
    → (ts rs rs' : Tys) → map_ty g ts ≡ some rs
    → map_ty h ts ≡ some rs'
    → rs ≡ rs'
map_ty_unique g h u nil rs rs' p q = cc
map_ty_unique g h u (cons t ts) rs rs' p q =
    let (r, e1, p') = >>=-eq-some (g t) _ p in
    let (r', e2, q') = >>=-eq-some (h t) _ q in
    let (tl, e3, p'') = >>=-eq-some (map_ty g ts) _ p' in
    let (tl', e4, q'') = >>=-eq-some (map_ty h ts) _ q' in
    cc (u t r r' e1 e2, map_ty_unique g h u ts tl tl' e3 e4)

pub resolve_unique :
    (f g : ℕ) (s : Subst) (t r r' : Ty) → resolve f s t ≡ some r → resolve g s t ≡ some r' → r ≡ r'
unfolding resolve
resolve_unique zero g s t r r' p q = cc
resolve_unique (suc f) zero s t r r' p q = cc
resolve_unique (suc f) (suc g) s (var v) r r' p q = elim (Option-cases (s v)) [
  | inl e ↦ cc (rw (e, resolve) at p, rw (e, resolve) at q)
  | inr (t, e) ↦ resolve_unique f g s t r r' (rw (e, resolve) at p) (rw (e, resolve) at q)
]
resolve_unique (suc f) (suc g) s (function ps t) r r' p q =
    let (r1, e1, p') = >>=-eq-some (map_ty (resolve f s) ps) _ p in
    let (r2, e2, q') = >>=-eq-some (map_ty (resolve g s) ps) _ q in
    let (t1, e3, p'') = >>=-eq-some (resolve f s t) _ p' in
    let (t2, e4, q'') = >>=-eq-some (resolve g s t) _ q' in
    cc (
      map_ty_unique (resolve f s) (resolve g s) (resolve_unique f g s) ps r1 r2 e1 e2,
      resolve_unique f g s t t1 t2 e3 e4,
    )
resolve_unique (suc f) (suc g) s (named d n ps) r r' p q =
    let (r1, e1, p') = >>=-eq-some (map_ty (resolve f s) ps) _ p in
    let (r2, e2, q') = >>=-eq-some (map_ty (resolve g s) ps) _ q in
    cc (map_ty_unique (resolve f s) (resolve g s) (resolve_unique f g s) ps r1 r2 e1 e2)
resolve_unique (suc f) (suc g) s t r r' p q = cc

module _ (s : Subst) where
  abbrev Meets : Ty → Ty → Type 0
  Meets a b =
      (f g : ℕ) (r q : Ty) → resolve f s a ≡ some r → resolve g s b ≡ some q → alike r q ≡ true

  abbrev MeetsAll : Tys → Tys → Type 0
  MeetsAll ts us =
      (f g : ℕ) (rs qs : Tys)
      → map_ty (resolve f s) ts ≡ some rs
      → map_ty (resolve g s) us ≡ some qs
      → alike_all rs qs ≡ true

  same-Meets : (t : Ty) → Meets t t
  same-Meets t f g r q p p' = rw (resolve_unique f g s t r q p p') (alike_refl q)

  left-Meets : {v : ℕ} {t : Ty} (b : Ty) → s v ≡ some t → Meets t b → Meets (var v) b
  unfolding resolve
  left-Meets b e m zero g r q p p' = absurd (cc p)
  left-Meets b e m (suc f) g r q p p' = m f g r q (rw (e, resolve) at p) p'

  right-Meets : {v : ℕ} {t : Ty} (a : Ty) → s v ≡ some t → Meets a t → Meets a (var v)
  unfolding resolve
  right-Meets a e m f zero r q p p' = absurd (cc p')
  right-Meets a e m f (suc g) r q p p' = m f g r q p (rw (e, resolve) at p')

  error_left-Meets : (b : Ty) → Meets error b
  unfolding resolve alike
  error_left-Meets b zero g r q p p' = absurd (cc p)
  error_left-Meets b (suc f) g r q p p' = let e : error ≡ r = cc in rw (← e) refl

  error_right-Meets : (a : Ty) → Meets a error
  unfolding resolve
  error_right-Meets a f zero r q p p' = absurd (cc p')
  error_right-Meets a f (suc g) r q p p' = let e : error ≡ q = cc in rw (← e) (alike-error r)

  function-Meets :
      (ts us : Tys) (a b : Ty) → MeetsAll ts us → Meets a b → Meets (function ts a) (function us b)
  unfolding resolve alike
  function-Meets ts us a b ms m zero g r q p p' = absurd (cc p)
  function-Meets ts us a b ms m (suc f) zero r q p p' = absurd (cc p')
  function-Meets ts us a b ms m (suc f) (suc g) r q p p' =
      let (ts', e1, k) = >>=-eq-some (map_ty (resolve f s) ts) _ p in
      let (us', e2, k') = >>=-eq-some (map_ty (resolve g s) us) _ p' in
      let (a', e3, l) = >>=-eq-some (resolve f s a) _ k in
      let (b', e4, l') = >>=-eq-some (resolve g s b) _ k' in
      let er : function ts' a' ≡ r = cc in
      let eq : function us' b' ≡ q = cc in
      rw (← er, ← eq) (rw (ms f g ts' us' e1 e2, m f g a' b' e3 e4) refl)

  named-Meets :
      (d : ℕ) (m n : String) (ts us : Tys) → MeetsAll ts us → Meets (named d m ts) (named d n us)
  unfolding resolve alike
  named-Meets d m n ts us ms zero g r q p p' = absurd (cc p)
  named-Meets d m n ts us ms (suc f) zero r q p p' = absurd (cc p')
  named-Meets d m n ts us ms (suc f) (suc g) r q p p' =
      let (ts', e1, k) = >>=-eq-some (map_ty (resolve f s) ts) _ p in
      let (us', e2, k') = >>=-eq-some (map_ty (resolve g s) us) _ p' in
      let er : named d m ts' ≡ r = cc in
      let eq : named d n us' ≡ q = cc in rw (← er, ← eq) (rw (==_refl d, ms f g ts' us' e1 e2) refl)

  nil-MeetsAll : MeetsAll nil nil
  unfolding alike
  nil-MeetsAll f g rs qs p p' =
      let er : nil ≡ rs = cc in let eq : nil ≡ qs = cc in rw (← er, ← eq) refl

  cons-MeetsAll :
      (a b : Ty) (ts us : Tys) → Meets a b → MeetsAll ts us → MeetsAll (cons a ts) (cons b us)
  unfolding alike
  cons-MeetsAll a b ts us m ms f g rs qs p p' =
      let (a', e1, k) = >>=-eq-some (resolve f s a) _ p in
      let (b', e2, k') = >>=-eq-some (resolve g s b) _ p' in
      let (ts', e3, l) = >>=-eq-some (map_ty (resolve f s) ts) _ k in
      let (us', e4, l') = >>=-eq-some (map_ty (resolve g s) us) _ k' in
      let er : cons a' ts' ≡ rs = cc in
      let eq : cons b' us' ≡ qs = cc in
      rw (← er, ← eq) (rw (m f g a' b' e1 e2, ms f g ts' us' e3 e4) refl)

mutual
  unfolding alike

  Agree-Meets : (s : Subst) {a b : Ty} → Agree s a b → Meets s a b
  Agree-Meets s (Agree.error_left b) = error_left-Meets s b
  Agree-Meets s (Agree.error_right a) = error_right-Meets s a
  Agree-Meets s (Agree.left {b} e h) = left-Meets s b e (Agree-Meets s h)
  Agree-Meets s (Agree.right {a} e h) = right-Meets s a e (Agree-Meets s h)
  Agree-Meets s (Agree.same_var v) = same-Meets s (var v)
  Agree-Meets s (Agree.primitive p) = same-Meets s (primitive p)
  Agree-Meets s (Agree.function {ps = ts} {qs = us} {r = x} {q = y} ps r) =
      function-Meets s ts us x y (AgreeAll-Meets s ps) (Agree-Meets s r)
  Agree-Meets s (Agree.named {d} {m} {n} {ps = ts} {qs = us} ps) =
      named-Meets s d m n ts us (AgreeAll-Meets s ps)
  Agree-Meets s (Agree.ffi_module m) = same-Meets s (ffi_module m)
  Agree-Meets s (Agree.ffi_instance m c) = same-Meets s (ffi_instance m c)
  Agree-Meets s (Agree.opaque m c) = same-Meets s (opaque m c)

  AgreeAll-Meets : (s : Subst) {ts us : Tys} → AgreeAll s ts us → MeetsAll s ts us
  AgreeAll-Meets s Agree.nil = nil-MeetsAll s
  AgreeAll-Meets s (Agree.cons {p} {q} {ps} {qs} h t) =
      cons-MeetsAll s p q ps qs (Agree-Meets s h) (AgreeAll-Meets s t)

-- When `unify` succeeds, the two types resolve to types that are equal up to `error` and the names
-- of named types.
pub alike-unify :
    (n : ℕ) (c : InferCtx) (a b : Ty) (d : InferCtx)
    → unify n c a b ≡ ok d
    → (f g : ℕ) (r q : Ty) → resolve f d.subst a ≡ some r
    → resolve g d.subst b ≡ some q
    → alike r q ≡ true
alike-unify n c a b d h = Agree-Meets d.subst (unify-Joins n c a b d h).1
