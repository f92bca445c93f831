-- ===== src/Purity/Check/Path.antt =====
-- `effect_path` ends.
use asatsuyu.Base.{
  ℕ, zero, suc, ◌+◌, ◌≤◌, ◌<◌, ◌≡◌, refl, ◌∙◌, false, Option, none, some, List, [], ◌∷◌, any, ◌==◌,
  ==_iff, ==_refl, if◌then◌else◌, length, arith, Bool-cases, Option-cases, inl, inr, ◌>>=◌,
  find-eq-some, Memᴰ,
}
use mathlib.Core.List.Memᴰ
use asatsuyu.Purity.{FunctionPurity}
use asatsuyu.Purity.Check.{EffectStep, function_of, step_of, effect_path_from, effect_path}

-- The functions that are not seen yet.
abbrev unseen : List ℕ → List FunctionPurity → ℕ
unseen seen [] = 0
unseen seen (f ∷ fs) =
    if any (λ i. i == f.def_id) seen then unseen seen fs else suc (unseen seen fs)

unseen-cons-le :
    (id : ℕ) (seen : List ℕ) (fs : List FunctionPurity) → unseen (id ∷ seen) fs ≤ unseen seen fs
unseen-cons-le id seen [] = omega arith
unseen-cons-le id seen (f ∷ fs) = ground (arith, unseen-cons-le id seen fs)

unseen-cons-lt :
    (f : FunctionPurity) (seen : List ℕ) (fs : List FunctionPurity)
    → Memᴰ f fs
    → any (λ i. i == f.def_id) seen ≡ false
    → unseen (f.def_id ∷ seen) fs < unseen seen fs
unseen-cons-lt f seen [] m h = absurd (Memᴰ.not-nil m)
unseen-cons-lt f seen (g ∷ fs) m h = elim (Memᴰ.cases_cons m) [
  | inl e ↦ ground (arith, e, h, unseen-cons-le f.def_id seen fs, ==_refl f.def_id)
  | inr later ↦ ground (arith, unseen-cons-lt f seen fs later h)
]

unseen-le : (seen : List ℕ) (fs : List FunctionPurity) → unseen seen fs ≤ length fs
unseen-le seen [] = omega arith
unseen-le seen (f ∷ fs) = ground (arith, unseen-le seen fs)

abbrev Returns : Option (List EffectStep) → Type 0
Returns o = (path : List EffectStep) × (o ≡ some path)

resume : {x y : Option (List EffectStep)} → x ≡ y → Returns y → Returns x
resume e (path, s) = (path, e ∙ s)

follow-Returns :
    (c : Option ℕ) (step : EffectStep) (rec : ℕ → Option (List EffectStep))
    → ((callee : ℕ) → Returns (rec callee))
    → Returns (elim c [
      | none ↦ some (step ∷ [])
      | some callee ↦ rec callee >>= λ path. some (step ∷ path)
    ])
follow-Returns none step rec h = (step ∷ [], refl)
follow-Returns (some callee) step rec h = let (path, e) = h callee in (step ∷ path, rw e refl)

effect_path_from-Returns :
    (n : ℕ) (fs : List FunctionPurity) (seen : List ℕ) (current : ℕ)
    → unseen seen fs < n
    → Returns (effect_path_from n fs seen current)
unfolding effect_path_from
effect_path_from-Returns zero fs seen current lt = absurd (omega arith)
effect_path_from-Returns (suc n) fs seen current lt =
    elim (Bool-cases (any (λ i. i == current) seen)) [
      | inl e ↦ ([], rw (e, effect_path_from) refl)
      | inr e ↦ elim (Option-cases (function_of fs current)) [
        | inl p ↦ ([], rw (e, p, effect_path_from) refl)
        | inr (f, p) ↦ elim (Option-cases f.origin) [
          | inl q ↦ ([], rw (e, p, q, effect_path_from) refl)
          | inr (o, q) ↦
              let (m, hit) = find-eq-some (λ (g : FunctionPurity). g.def_id == current) fs f p in
              let same : f.def_id ≡ current = (==_iff f.def_id current).0 hit in
              let less : unseen (current ∷ seen) fs < unseen seen fs =
                rw (← same) (unseen-cons-lt f seen fs m (rw same e)) in
              resume (rw (e, p, q, effect_path_from) refl) (
                follow-Returns o.callee (step_of fs current f o)
                  (effect_path_from n fs (current ∷ seen))
                  (λ callee.
                    effect_path_from-Returns n fs (current ∷ seen) callee
                      (omega (arith, less, lt))))
        ]
      ]
    ]

-- `effect_path` returns a path for every report and every definition, cyclic calls included.
pub effect_path_total :
    (report : List FunctionPurity) (id : ℕ)
    → (path : List EffectStep) × (effect_path report id ≡ some path)
unfolding effect_path
effect_path_total report id =
    effect_path_from-Returns (length report + 1) report [] id (omega (arith, unseen-le [] report))
