-- ===== src/Purity/Propagate/Fixpoint.antt =====
-- The propagation reaches the least fixpoint: a function ends effectful exactly if an effect is
-- reachable from it.
use asatsuyu.Base.{
  ℕ, zero, suc, ◌+◌, ◌≤◌, ◌<◌, ◌≡◌, refl, sym, ap, ◌↔◌, ◌⊎◌, inl, inr, true, some, List, [], ◌∷◌,
  ◌++◌, length, length-append, arith, Memᴰ, Memᴰ-cons, List-cases, Bool-cases,
}
use mathlib.Core.Path.{subst}
use mathlib.Core.List.Memᴰ
use asatsuyu.Syntax.Span.{Span}
use asatsuyu.Purity.{FunctionPurity, is_effectful}
use asatsuyu.Purity.Propagate.{State, seeds_from, def_at, round, loop}
use asatsuyu.Purity.Propagate.Relax.{
  effectful_at, pure_count, relax_all-Conserves, Caller, relax_all-effectful, relax_all-worklist,
}

-- From the function at a position some chain of calls leads to an effect of its own: a function
-- that was effectful at the start.
pub data Reaches (incoming : ℕ → List (ℕ × Span)) (functions : List FunctionPurity)
    : ℕ → Type 0 where
  own : {v : ℕ} → effectful_at functions v ≡ true → Reaches incoming functions v
  calls :
      {u v : ℕ}
      → Reaches incoming functions u
      → Caller v (incoming u)
      → v < length functions
      → Reaches incoming functions v

module _ (incoming : ℕ → List (ℕ × Span)) (start : List FunctionPurity) where
  record Inv (s : State) : Type 0 where
    size : length s.functions ≡ length start
    kept : (v : ℕ) → effectful_at start v ≡ true → effectful_at s.functions v ≡ true
    queued : (v : ℕ) → Memᴰ v s.worklist → effectful_at s.functions v ≡ true
    sound : (v : ℕ) → effectful_at s.functions v ≡ true → Reaches incoming start v
    closed :
        (u v : ℕ)
        → effectful_at s.functions u ≡ true
        → Caller v (incoming u)
        → v < length start
        → Memᴰ u s.worklist ⊎ (effectful_at s.functions v ≡ true)

  round-Inv :
      (s : State) (u : ℕ) (rest : List ℕ)
      → s.worklist ≡ u ∷ rest
      → Inv s
      → Inv (round incoming s u rest)
  unfolding round
  round-Inv s u rest e h =
      let s' = record s { worklist = rest } in
      let id = def_at s.functions u in
      let flags = relax_all-effectful id s' (incoming u) in
      let queue = relax_all-worklist id s' (incoming u) in
      let to_u = sound u (queued u (subst (Memᴰ u) (sym e) (Memᴰ.head refl))) in
      record {
        size = omega (arith, relax_all-Conserves id s' (incoming u));
        kept = λ v k. (flags v).1 (inl (kept v k));
        queued = λ v q. ground (arith, flags v, queue v, queued v, Memᴰ-cons v u rest);
        sound =
            λ v m. ground (arith, flags v, sound v, λ (c : Caller v (incoming u)). calls to_u c);
        closed =
            λ x v m c lt. ground (arith, flags v, flags x, queue x, closed x v, Memᴰ-cons x u rest);
      }
    where
      open h use {size, kept, queued, sound, closed}

  done-Inv :
      (s : State) (result : List FunctionPurity)
      → Inv s
      → s.functions ≡ result
      → s.worklist ≡ []
      → Inv (record { functions = result; worklist = [] })
  done-Inv s result h e e' = rw (← e, ← e') h

  loop_rule :
      (fuel : ℕ) (s : State) (result : List FunctionPurity)
      → Inv s
      → loop incoming fuel s ≡ some result
      → Inv (record { functions = result; worklist = [] })
  unfolding loop
  loop_rule zero s result h p = elim (List-cases s.worklist) [
    | inl e ↦ done-Inv s result h (cc (rw (e, loop) at p)) e
    | inr (u, rest, e) ↦ absurd (cc (rw (e, loop) at p))
  ]
  loop_rule (suc fuel) s result h p = elim (List-cases s.worklist) [
    | inl e ↦ done-Inv s result h (cc (rw (e, loop) at p)) e
    | inr (u, rest, e) ↦
        loop_rule fuel (round incoming s u rest) result (round-Inv s u rest e h) (rw (e, loop) at p)
  ]

  -- Enough fuel: a round takes one position off the work list, and puts on it only what it makes
  -- effectful.
  loop_ends :
      (fuel : ℕ) (s : State)
      → pure_count s.functions + length s.worklist ≤ fuel
      → (result : List FunctionPurity) × (loop incoming fuel s ≡ some result)
  unfolding loop round
  loop_ends zero s lt = elim (List-cases s.worklist) [
    | inl e ↦ (s.functions, rw (e, loop) refl)
    | inr (u, rest, e) ↦ absurd (omega (arith, ap length e))
  ]
  loop_ends (suc fuel) s lt = elim (List-cases s.worklist) [
    | inl e ↦ (s.functions, rw (e, loop) refl)
    | inr (u, rest, e) ↦
        let s' = record s { worklist = rest } in
        let kept = relax_all-Conserves (def_at s.functions u) s' (incoming u) in
        let (result, p) = loop_ends fuel (round incoming s u rest) (omega (arith, ap length e)) in
        (result, rw (e, loop) p)
  ]

  complete :
      (s : State)
      → Inv s
      → s.worklist ≡ []
      → {v : ℕ} → Reaches incoming start v
      → effectful_at s.functions v ≡ true
  complete s h e (own m) = h.kept _ m
  complete s h e (calls {u} {v} p c lt) = elim (h.closed u v (complete s h e p) c lt) [
    | inl waiting ↦ absurd (Memᴰ.not-nil (subst (Memᴰ u) e waiting))
    | inr m ↦ m
  ]

effectful_at-lt : (fs : List FunctionPurity) (v : ℕ) → effectful_at fs v ≡ true → v < length fs
effectful_at-lt [] v h = absurd (cc h)
effectful_at-lt (f ∷ fs) zero h = omega arith
effectful_at-lt (f ∷ fs) (suc v) h = omega (arith, effectful_at-lt fs v h)

seeds_from-count :
    (i : ℕ) (fs : List FunctionPurity) → pure_count fs + length (seeds_from i fs) ≡ length fs
unfolding seeds_from
seeds_from-count i [] = omega arith
seeds_from-count i (f ∷ fs) =
    ground (arith, seeds_from-count (i + 1) fs, length-append (seeds_from (i + 1) fs) (i ∷ []))

Memᴰ-concat : (a x : ℕ) (xs : List ℕ) → Memᴰ a (xs ++ x ∷ []) → Memᴰ a xs ⊎ (a ≡ x)
Memᴰ-concat a x xs m = elim (Memᴰ.append_cases xs m) [
  | inl h ↦ inl h
  | inr h ↦ inr (Memᴰ.eq_of_singleton h)
]

-- The seeds are effectful.
seeds_from_sound :
    (i : ℕ) (fs : List FunctionPurity) (v : ℕ)
    → Memᴰ v (seeds_from i fs)
    → (j : ℕ) × (v ≡ i + j) × (effectful_at fs j ≡ true)
unfolding seeds_from
seeds_from_sound i [] v m = absurd (Memᴰ.not-nil m)
seeds_from_sound i (f ∷ fs) v m = elim (Bool-cases (is_effectful f)) [
  | inl e ↦ elim (Memᴰ-concat v i (seeds_from (i + 1) fs) (rw e at m)) [
    | inl rest ↦ let (j, p, q) = seeds_from_sound (i + 1) fs v rest in (suc j, omega arith, q)
    | inr here ↦ (0, omega arith, e)
  ]
  | inr e ↦ let (j, p, q) = seeds_from_sound (i + 1) fs v (rw e at m) in (suc j, omega arith, q)
]

seeds_from-complete :
    (i : ℕ) (fs : List FunctionPurity) (j v : ℕ)
    → effectful_at fs j ≡ true
    → v ≡ i + j
    → Memᴰ v (seeds_from i fs)
unfolding seeds_from
seeds_from-complete i [] j v h e = absurd (cc h)
seeds_from-complete i (f ∷ fs) zero v h e =
    rw h (Memᴰ.append_right (seeds_from (i + 1) fs) (Memᴰ.head (omega arith)))
seeds_from-complete i (f ∷ fs) (suc j) v h e = elim (Bool-cases (is_effectful f)) [
  | inl p ↦ rw p (Memᴰ.append_left (i ∷ []) (seeds_from-complete (i + 1) fs j v h (omega arith)))
  | inr p ↦ rw p (seeds_from-complete (i + 1) fs j v h (omega arith))
]

module _ (incoming : ℕ → List (ℕ × Span)) (start : List FunctionPurity) where
  abbrev seeded : State
  seeded = record { functions = start; worklist = seeds_from 0 start }

  seeded-queued : (v : ℕ) → Memᴰ v (seeds_from 0 start) → effectful_at start v ≡ true
  seeded-queued v m =
      let (j, p, q) = seeds_from_sound 0 start v m in let e : v ≡ j = omega arith in rw e q

  seeded-Inv : Inv incoming start seeded
  seeded-Inv = record {
    size = refl;
    kept = λ v h. h;
    queued = seeded-queued;
    sound = λ v h. own h;
    closed = λ u v h c lt. inl (seeds_from-complete 0 start u u h (omega arith));
  }

  -- The loop ends within as many rounds as functions, keeps their number, and leaves exactly the
  -- functions from which an effect is reachable effectful.
  pub loop_lem :
      (result : List FunctionPurity) × (loop incoming (length start) seeded ≡ some result)
      × (length result ≡ length start)
      × ((v : ℕ) → (effectful_at result v ≡ true) ↔ Reaches incoming start v)
  loop_lem =
      let (result, p) =
        loop_ends incoming start (length start) seeded (omega (arith, seeds_from-count 0 start)) in
      let inv = loop_rule incoming start (length start) seeded result seeded-Inv p in
      (
        result,
        p,
        inv.size,
        λ v. (
          inv.sound v,
          complete incoming start (record { functions = result; worklist = [] }) inv refl,
        ),
      )
