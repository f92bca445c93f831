-- ===== src/Infer/Halts/Descent.antt =====
-- The descent of `unify` through the two types, and its termination.
use asatsuyu.Base.{
  ℕ, zero, suc, ◌+◌, ◌≤◌, ◌<◌, ◌≡◌, refl, ◌⊎◌, inl, inr, ◌&&◌, some, arith, Bool-cases, ◌==◌,
}
use asatsuyu.Types.{
  Ty, Tys, primitive, function, named, ffi_module, ffi_instance, opaque, var, error, nil, cons,
}
use asatsuyu.Infer.{
  InferCtx, shallow_resolve, out_of_fuel, ok, err, unify_all, unify_step, unify, count, mismatch,
}
use asatsuyu.Infer.Steps.{IsResolved, shallow_resolve-Leads}
use asatsuyu.Infer.Below.{Below, BelowAll, Below-Leads}
use asatsuyu.Infer.Finite
use asatsuyu.Infer.Finite.{Finite, FiniteAll, Finite-IsAcyclic}
use asatsuyu.Infer.WellFormed.{IsWellFormed, AllocatedBelow}
use asatsuyu.Infer.Settle.{from_suc, walk}
use asatsuyu.Infer.Agree.{Agree}
use asatsuyu.Infer.Sound.{unify-Joins}
use asatsuyu.Infer.Solution.{apply, Solves}
use asatsuyu.Infer.Solution.Keeps.{unify-Keeps}
use asatsuyu.Infer.WellFormed.{unify-IsWellFormed}
use asatsuyu.Infer.Halts.{
  Stable, unbound_below, const-Stable, ok-Stable, require-Stable, bind-Stable, and_then-Stable,
  HaltsBelow, later_all, range_of, finite_in, unify-Grown, unify_all-Grown,
}

abbrev IsLeaf : Ty → Type 0
IsLeaf (function ps r) = ⊥
IsLeaf (named d m ts) = ⊥
IsLeaf _ = Unit

module _ (n k : ℕ) (halts : HaltsBelow n k) (c : InferCtx) (r : AllocatedBelow n c)
    (top : unbound_below n c.subst < suc k) where
  abbrev Steps : Ty → Type 0
  Steps a = (b : Ty) → IsResolved c.subst b → Below n b → Stable (λ g. unify_step (unify g) g c a b)

  leaf-Steps : (a : Ty) → IsLeaf a → Steps a
  unfolding unify_step
  leaf-Steps (function ps q) leaf b rb bb = absurd leaf
  leaf-Steps (named d m ts) leaf b rb bb = absurd leaf
  leaf-Steps error leaf b rb bb = ok-Stable _ c (λ _. refl)
  leaf-Steps (var x) leaf error rb bb = ok-Stable _ c (λ _. refl)
  leaf-Steps (var x) leaf (var y) rb bb = elim (Bool-cases (x == y)) [
    | inl e ↦ rw e (ok-Stable _ c (λ _. refl))
    | inr e ↦ rw e (bind-Stable c x (var y) (finite_in n c r (var y)))
  ]
  leaf-Steps (var x) leaf b rb bb = bind-Stable c x b (finite_in n c r b)
  leaf-Steps a leaf error rb bb = ok-Stable _ c (λ _. refl)
  leaf-Steps a leaf (var y) rb bb = bind-Stable c y a (finite_in n c r a)
  leaf-Steps (primitive p) leaf (primitive q) rb bb = require-Stable _ c (primitive p) (primitive q)
  leaf-Steps (ffi_module m1) leaf (ffi_module m2) rb bb =
      require-Stable _ c (ffi_module m1) (ffi_module m2)
  leaf-Steps (ffi_instance m1 c1) leaf (ffi_instance m2 c2) rb bb =
      require-Stable _ c (ffi_instance m1 c1) (ffi_instance m2 c2)
  leaf-Steps (opaque m1 s1) leaf (opaque m2 s2) rb bb =
      require-Stable _ c (opaque m1 s1) (opaque m2 s2)
  leaf-Steps a leaf b rb bb = const-Stable _ (err c (mismatch a b)) (λ p. cc) (λ _. refl)

  -- The end of the walk from a type, and the calls from there.
  record Reach (a : Ty) : Type 0 where
    goal : Ty
    fuel : ℕ
    reaches : (g : ℕ) → fuel ≤ g → shallow_resolve g c.subst a ≡ some goal
    steps : Steps goal

  abbrev Halting : Ty → Type 0
  Halting a = (b : Ty) → Below n b → Stable (λ g. unify g c a b)

  abbrev HaltingAll : Tys → Type 0
  HaltingAll ps = (qs : Tys) → BelowAll n qs → Stable (λ g. unify_all (unify g) c ps qs)

  Reach-Halting : (a : Ty) → Reach a → Halting a
  unfolding unify
  Reach-Halting a reach b bb =
      let w = walk c.subst (finite_in n c r b) in
      let (lb, rb) =
        shallow_resolve-Leads w.fuel c.subst b w.goal (w.reaches w.fuel (omega arith)) in
      let (m, o, e, h) = reach.steps w.goal rb (Below-Leads (range_of n c r) lb bb) in
      (
        suc (reach.fuel + w.fuel + m),
        o,
        e,
        from_suc (λ g. unify g c a b ≡ o) (reach.fuel + w.fuel + m)
            (λ g lt.
              rw (reach.reaches g (omega arith), w.reaches g (omega arith), unify)
                (h g (omega arith))),
      )

  nil_halts : HaltingAll nil
  nil_halts qs bq = ok-Stable _ c (λ _. refl)

  cons_halts :
      (p : Ty) (ps : Tys)
      → Below n p
      → BelowAll n ps
      → Halting p
      → HaltingAll ps
      → HaltingAll (cons p ps)
  cons_halts p ps bp bps h hs nil bq = ok-Stable _ c (λ _. refl)
  cons_halts p ps bp bps h hs (cons q qs) bq =
      and_then-Stable (λ g. unify g c p q) (λ g d. unify_all (unify g) d ps qs) (h q bq.0)
        (λ d g e. let (r', less) = unify-Grown n g c p q d r bp bq.0 e in rest d r' less)
    where
      rest :
          (d : InferCtx)
          → AllocatedBelow n d
          → (d ≡ c) ⊎ (unbound_below n d.subst < unbound_below n c.subst)
          → Stable (λ g. unify_all (unify g) d ps qs)
      rest d r' (inl e) = rw e (hs qs bq.1)
      rest d r' (inr less) = later_all n k halts d ps qs r' (omega arith) bps bq.1

  function-Steps :
      (ps : Tys) (q : Ty)
      → BelowAll n ps
      → Below n q
      → HaltingAll ps
      → Halting q
      → Steps (function ps q)
  unfolding unify_step
  function-Steps ps q bps bq hs h error rb bb = ok-Stable _ c (λ _. refl)
  function-Steps ps q bps bq hs h (var y) rb bb =
      bind-Stable c y (function ps q) (finite_in n c r (function ps q))
  function-Steps ps q bps bq hs h (function ps' q') rb bb =
      elim (Bool-cases (count ps == count ps')) [
        | inr e ↦ rw e (
            const-Stable _ (err c (mismatch (function ps q) (function ps' q'))) (λ p. cc)
              (λ _. refl))
        | inl e ↦ rw e (
            and_then-Stable (λ g. unify_all (unify g) c ps ps') (λ g d. unify g d q q')
              (hs ps' bb.0)
              (λ d g p.
                let (r', less) = unify_all-Grown n g c ps ps' d r bps bb.0 p in rest d r' less))
      ]
    where
      rest :
          (d : InferCtx)
          → AllocatedBelow n d
          → (d ≡ c) ⊎ (unbound_below n d.subst < unbound_below n c.subst)
          → Stable (λ g. unify g d q q')
      rest d r' (inl e) = rw e (h q' bb.1)
      rest d r' (inr less) = halts d q q' r' (omega arith) bq bb.1
  function-Steps ps q bps bq hs h b rb bb =
      const-Stable _ (err c (mismatch (function ps q) b)) (λ p. cc) (λ _. refl)

  named-Steps : (d : ℕ) (m : _) (ps : Tys) → HaltingAll ps → Steps (named d m ps)
  unfolding unify_step
  named-Steps d m ps hs error rb bb = ok-Stable _ c (λ _. refl)
  named-Steps d m ps hs (var y) rb bb =
      bind-Stable c y (named d m ps) (finite_in n c r (named d m ps))
  named-Steps d m ps hs (named d' m' ps') rb bb =
      elim (Bool-cases ((d == d') && (count ps == count ps'))) [
        | inr e ↦ rw e (
            const-Stable _ (err c (mismatch (named d m ps) (named d' m' ps'))) (λ p. cc)
              (λ _. refl))
        | inl e ↦ rw e (hs ps' bb)
      ]
  named-Steps d m ps hs b rb bb =
      const-Stable _ (err c (mismatch (named d m ps) b)) (λ p. cc) (λ _. refl)

  stay : (a : Ty) → ((g : ℕ) → shallow_resolve (suc g) c.subst a ≡ some a) → Steps a → Reach a
  stay a h steps = record {
    goal = a;
    fuel = 1;
    reaches = from_suc (λ g. shallow_resolve g c.subst a ≡ some a) 0 (λ g _. h g);
    steps = steps;
  }

  mutual
    unfolding shallow_resolve

    reach : {a : Ty} → Finite c.subst a → Below n a → Reach a
    reach (Finite.unbound {v} e) ba =
        stay (var v) (λ g. rw (e, shallow_resolve) refl) (leaf-Steps (var v) tt)
    reach (Finite.bound {v} {t} e h) ba =
        let w = reach h (range_of n c r v t e) in
        record {
          goal = w.goal;
          fuel = suc w.fuel;
          reaches =
              from_suc (λ g. shallow_resolve g c.subst (var v) ≡ some w.goal) w.fuel
                (λ g lt. rw (e, shallow_resolve) (w.reaches g lt));
          steps = w.steps;
        }
    reach (Finite.function {ps} {r = q} hs h) ba =
        stay (function ps q) (λ g. refl)
          (function-Steps ps q ba.0 ba.1 (reach_all hs ba.0) (Reach-Halting q (reach h ba.1)))
    reach (Finite.named {d} {n = m} {ts} hs) ba =
        stay (named d m ts) (λ g. refl) (named-Steps d m ts (reach_all hs ba))
    reach (Finite.primitive p) ba = stay (primitive p) (λ g. refl) (leaf-Steps (primitive p) tt)
    reach (Finite.ffi_module m) ba = stay (ffi_module m) (λ g. refl) (leaf-Steps (ffi_module m) tt)
    reach (Finite.ffi_instance m l) ba =
        stay (ffi_instance m l) (λ g. refl) (leaf-Steps (ffi_instance m l) tt)
    reach (Finite.opaque m l) ba = stay (opaque m l) (λ g. refl) (leaf-Steps (opaque m l) tt)
    reach Finite.fault ba = stay error (λ g. refl) (leaf-Steps error tt)

    reach_all : {ps : Tys} → FiniteAll c.subst ps → BelowAll n ps → HaltingAll ps
    reach_all Finite.nil bps = nil_halts
    reach_all (Finite.cons {t} {ts} h hs) bps =
        cons_halts t ts bps.0 bps.1 (Reach-Halting t (reach h bps.0)) (reach_all hs bps.1)

  unify_here : (a b : Ty) → Below n a → Below n b → Stable (λ g. unify g c a b)
  unify_here a b ba bb = Reach-Halting a (reach (finite_in n c r a) ba) b bb

halts_below : (n k : ℕ) → HaltsBelow n k
halts_below n zero c a b r lt ba bb = absurd (omega arith)
halts_below n (suc k) c a b r lt ba bb = unify_here n k (halts_below n k) c r lt a b ba bb

-- On a well-formed context and allocated types `unify` ends: from some fuel on it has one outcome,
-- a success or an error.
pub unify-Stable :
    (c : InferCtx) (a b : Ty)
    → IsWellFormed c
    → Below c.next_var a
    → Below c.next_var b
    → Stable (λ g. unify g c a b)
unify-Stable c a b w ba bb =
    halts_below c.next_var (suc (unbound_below c.next_var c.subst)) c a b (refl, w) (omega arith) ba
      bb

-- On a well-formed context and allocated types that some assignment solves and makes equal, `unify`
-- succeeds: from some fuel on it leaves one context, which is well formed, extends the old bindings
-- so that the two types agree, and is solved by every assignment that solved the old bindings and
-- made the types equal.
pub unify_most_general :
    (c : InferCtx) (a b : Ty) (σ : ℕ → Ty)
    → IsWellFormed c
    → Below c.next_var a
    → Below c.next_var b
    → Solves σ c.subst
    → apply σ a ≡ apply σ b
    → (n : ℕ) × (d : InferCtx) × ((g : ℕ) → n ≤ g → unify g c a b ≡ ok d)
      × IsWellFormed d
      × Agree d.subst a b
      × ((τ : ℕ → Ty) → Solves τ c.subst → apply τ a ≡ apply τ b → Solves τ d.subst)
unify_most_general c a b σ w ba bb h e = decide (unify-Stable c a b w ba bb)
  where
    decide :
        Stable (λ g. unify g c a b)
        → (n : ℕ) × (d : InferCtx) × ((g : ℕ) → n ≤ g → unify g c a b ≡ ok d)
          × IsWellFormed d
          × Agree d.subst a b
          × ((τ : ℕ → Ty) → Solves τ c.subst → apply τ a ≡ apply τ b → Solves τ d.subst)
    decide (n, out_of_fuel, ne, run) = absurd (ne refl)
    decide (n, err d k, ne, run) = absurd (rw (run n (omega arith)) at (unify-Keeps σ n c a b h e))
    decide (n, ok d, ne, run) = (
      n,
      d,
      run,
      (rw (run n (omega arith)) at (unify-IsWellFormed n c a b w ba bb)).1,
      (unify-Joins n c a b d (run n (omega arith))).1,
      λ τ s p. rw (run n (omega arith)) at (unify-Keeps τ n c a b s p),
    )
