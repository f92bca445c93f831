-- ===== src/Infer/Settle.antt =====
-- Enough fuel: on finite types `shallow_resolve`, `resolve` and `occurs_in` return, and more fuel
-- gives the same result.
use asatsuyu.Base.{ℕ, zero, suc, ◌+◌, ◌≤◌, ◌≡◌, refl, Bool, true, false, Option, some, arith, ◌==◌}
use asatsuyu.Types.{Ty, Tys, var}
use asatsuyu.Infer.{Subst, shallow_resolve, occurs_in, occurs_step, any_ty, resolve, map_ty}
use asatsuyu.Infer.Finite.{
  Finite, FiniteAll, unbound, bound, primitive, function, named, ffi_module, ffi_instance, opaque,
  fault, nil, cons,
}

-- From some fuel on the result is there and does not change.
abbrev pub Settles : {A : Type 0} → (ℕ → Option A) → Type 0
Settles {A} h = (n : ℕ) × (a : A) × ((g : ℕ) → n ≤ g → h g ≡ some a)

pub from_suc {ℓ} :
    (P : ℕ → Type ℓ) (n : ℕ) → ((g : ℕ) → n ≤ g → P (suc g)) → (g : ℕ) → suc n ≤ g → P g
from_suc P n h zero lt = absurd (omega arith)
from_suc P n h (suc g) lt = h g (omega arith)

module _ (s : Subst) where
  settle_leaf : (t : Ty) → ((g : ℕ) → resolve (suc g) s t ≡ some t) → Settles (λ g. resolve g s t)
  settle_leaf t h = (1, t, from_suc (λ g. resolve g s t ≡ some t) 0 (λ g _. h g))

  mutual
    unfolding resolve

    settle : {t : Ty} → Finite s t → Settles (λ g. resolve g s t)
    settle (unbound {v} e) = settle_leaf (var v) (λ g. rw (e, resolve) refl)
    settle (bound {v} e h) =
        let (n, r, k) = settle h in
        (
          suc n,
          r,
          from_suc (λ g. resolve g s (var v) ≡ some r) n (λ g lt. rw (e, resolve) (k g lt)),
        )
    settle (primitive p) = settle_leaf (Ty.primitive p) (λ g. refl)
    settle (function {ps} {r} hs h) =
        let (n1, ps', k1) = settle_all hs in
        let (n2, r', k2) = settle h in
        (
          suc (n1 + n2),
          Ty.function ps' r',
          from_suc (λ g. resolve g s (Ty.function ps r) ≡ some (Ty.function ps' r')) (n1 + n2)
              (λ g lt. rw (k1 g (omega arith), k2 g (omega arith)) refl),
        )
    settle (named {d} {n} {ts} hs) =
        let (m, ts', k) = settle_all hs in
        (
          suc m,
          Ty.named d n ts',
          from_suc (λ g. resolve g s (Ty.named d n ts) ≡ some (Ty.named d n ts')) m
              (λ g lt. rw (k g lt) refl),
        )
    settle (ffi_module m) = settle_leaf (Ty.ffi_module m) (λ g. refl)
    settle (ffi_instance m c) = settle_leaf (Ty.ffi_instance m c) (λ g. refl)
    settle (opaque m c) = settle_leaf (Ty.opaque m c) (λ g. refl)
    settle fault = settle_leaf Ty.error (λ g. refl)

    settle_all : {ts : Tys} → FiniteAll s ts → Settles (λ g. map_ty (resolve g s) ts)
    settle_all nil = (0, Tys.nil, λ g _. refl)
    settle_all (cons h hs) =
        let (n1, t', k1) = settle h in
        let (n2, ts', k2) = settle_all hs in
        (n1 + n2, Tys.cons t' ts', λ g lt. rw (k1 g (omega arith), k2 g (omega arith)) refl)

  -- `resolve` returns on every finite type.
  pub resolve-Settles : {t : Ty} → Finite s t → Settles (λ g. resolve g s t)
  resolve-Settles h = settle h

  -- The walk of `shallow_resolve` from a type, and its end.
  pub record Walk (t : Ty) : Type 0 where
    pub goal : Ty
    pub fuel : ℕ
    pub reaches : (g : ℕ) → fuel ≤ g → shallow_resolve g s t ≡ some goal

  leaf_walk : (t : Ty) → ((g : ℕ) → shallow_resolve (suc g) s t ≡ some t) → Walk t
  leaf_walk t h = record {
    goal = t;
    fuel = 1;
    reaches = from_suc (λ g. shallow_resolve g s t ≡ some t) 0 (λ g _. h g);
  }

  pub walk : {t : Ty} → Finite s t → Walk t
  unfolding shallow_resolve
  walk (unbound {v} e) = leaf_walk (var v) (λ g. rw (e, shallow_resolve) refl)
  walk (bound {v} e h) =
      let w = walk h in
      record {
        goal = w.goal;
        fuel = suc w.fuel;
        reaches =
            from_suc (λ g. shallow_resolve g s (var v) ≡ some w.goal) w.fuel
              (λ g lt. rw (e, shallow_resolve) (w.reaches g lt));
      }
  walk {t} (primitive p) = leaf_walk t (λ g. refl)
  walk {t} (function hs h) = leaf_walk t (λ g. refl)
  walk {t} (named hs) = leaf_walk t (λ g. refl)
  walk {t} (ffi_module m) = leaf_walk t (λ g. refl)
  walk {t} (ffi_instance m c) = leaf_walk t (λ g. refl)
  walk {t} (opaque m c) = leaf_walk t (λ g. refl)
  walk {t} fault = leaf_walk t (λ g. refl)

  module _ (x : ℕ) where
    -- The test of `occurs_in` at the end of the walk.
    record Search (t : Ty) : Type 0 where
      goal : Ty
      fuel : ℕ
      found : Bool
      reaches : (g : ℕ) → fuel ≤ g → shallow_resolve g s t ≡ some goal
      tests : (g : ℕ) → fuel ≤ g → occurs_step (occurs_in g s x) x goal ≡ some found

    Search-from :
        {t : Ty}
        → Finite s t
        → (b : Bool) (n : ℕ) → ((g : ℕ) → shallow_resolve (suc g) s t ≡ some t)
        → ((g : ℕ) → n ≤ g → occurs_step (occurs_in g s x) x t ≡ some b)
        → Search t
    Search-from {t} h b n still k = record {
      goal = t;
      fuel = suc n;
      found = b;
      reaches = from_suc (λ g. shallow_resolve g s t ≡ some t) n (λ g _. still g);
      tests = λ g lt. k g (omega arith);
    }

    found_at : {t : Ty} → Search t → Settles (λ g. occurs_in g s x t)
    unfolding occurs_in
    found_at {t} q = (
      suc q.fuel,
      q.found,
      from_suc (λ g. occurs_in g s x t ≡ some q.found) q.fuel
          (λ g lt. rw (q.reaches g lt) (q.tests g lt)),
    )

    either_found :
        (b1 b2 : Bool) (n1 n2 : ℕ) {ps : Tys} {r : Ty}
        → FiniteAll s ps
        → Finite s r
        → ((g : ℕ) → n1 ≤ g → any_ty (occurs_in g s x) ps ≡ some b1)
        → ((g : ℕ) → n2 ≤ g → occurs_in g s x r ≡ some b2)
        → Search (Ty.function ps r)
    unfolding shallow_resolve
    either_found true b2 n1 n2 hs h k1 k2 =
        Search-from (function hs h) true n1 (λ g. refl) (λ g lt. rw (k1 g lt) refl)
    either_found false b2 n1 n2 hs h k1 k2 =
        Search-from (function hs h) b2 (n1 + n2) (λ g. refl)
          (λ g lt. rw (k1 g (omega arith)) (k2 g (omega arith)))

    some_found :
        (b1 b2 : Bool) (n1 n2 : ℕ) (t : Ty) (ts : Tys)
        → ((g : ℕ) → n1 ≤ g → occurs_in g s x t ≡ some b1)
        → ((g : ℕ) → n2 ≤ g → any_ty (occurs_in g s x) ts ≡ some b2)
        → Settles (λ g. any_ty (occurs_in g s x) (Tys.cons t ts))
    some_found true b2 n1 n2 t ts k1 k2 = (n1, true, λ g lt. rw (k1 g lt) refl)
    some_found false b2 n1 n2 t ts k1 k2 =
        (n1 + n2, b2, λ g lt. rw (k1 g (omega arith)) (k2 g (omega arith)))

    mutual
      unfolding shallow_resolve

      Search-in : {t : Ty} → Finite s t → Search t
      Search-in (unbound {v} e) =
          Search-from (unbound e) (v == x) 0 (λ g. rw (e, shallow_resolve) refl) (λ g _. refl)
      Search-in (bound {v} e h) =
          let q = Search-in h in
          record {
            goal = q.goal;
            fuel = suc q.fuel;
            found = q.found;
            reaches =
                from_suc (λ g. shallow_resolve g s (var v) ≡ some q.goal) q.fuel
                  (λ g lt. rw (e, shallow_resolve) (q.reaches g lt));
            tests = λ g lt. q.tests g (omega arith);
          }
      Search-in (primitive p) = Search-from (primitive p) false 0 (λ g. refl) (λ g _. refl)
      Search-in (function hs h) =
          let (n1, b1, k1) = search_all hs in
          let (n2, b2, k2) = found_at (Search-in h) in either_found b1 b2 n1 n2 hs h k1 k2
      Search-in (named hs) =
          let (n, b, k) = search_all hs in Search-from (named hs) b n (λ g. refl) k
      Search-in (ffi_module m) = Search-from (ffi_module m) false 0 (λ g. refl) (λ g _. refl)
      Search-in (ffi_instance m c) =
          Search-from (ffi_instance m c) false 0 (λ g. refl) (λ g _. refl)
      Search-in (opaque m c) = Search-from (opaque m c) false 0 (λ g. refl) (λ g _. refl)
      Search-in fault = Search-from fault false 0 (λ g. refl) (λ g _. refl)

      search_all : {ts : Tys} → FiniteAll s ts → Settles (λ g. any_ty (occurs_in g s x) ts)
      search_all nil = (0, false, λ g _. refl)
      search_all (cons {t} {ts} h hs) =
          let (n1, b1, k1) = found_at (Search-in h) in
          let (n2, b2, k2) = search_all hs in some_found b1 b2 n1 n2 t ts k1 k2

    -- `occurs_in` returns on every finite type.
    pub occurs_in-Settles : {t : Ty} → Finite s t → Settles (λ g. occurs_in g s x t)
    occurs_in-Settles h = found_at (Search-in h)
