-- ===== src/Coverage/Adts.antt =====
-- The coverage checks of a match on an algebraic type and on a primitive type.
use mathlib.Core.List.Memᴰ
use asatsuyu.Base.{
  ℕ, ◌≡◌, refl, Bool, true, false, not, ◌&&◌, ◌||◌, some, List, [], ◌∷◌, map, String, any, ◌==◌,
  ==_iff, arith, any-append, Memᴰ, Bool-cases, inl, inr,
}
use asatsuyu.Syntax.Span.{Span}
use asatsuyu.Thir.{
  ThirPattern, ThirLiteral, ThirMatchArm, wildcard, variable, literal, constructor, tuple, list,
}
use asatsuyu.Coverage.{
  Report, remove, is_empty, AdtSeen, adt_arm_is_unreachable, see_adt_pattern, adt_arms,
  check_adt_coverage, AdtDef, AdtVariant, is_catchall, primitive_arms, check_primitive_coverage,
  is_error, missing_names,
}
use asatsuyu.Coverage.Values.{
  Value, Values, constructed, matches, handled, IsFlat, AreFlat, value_count, pattern_count,
}
use asatsuyu.Coverage.Lists.{catchall-matches, all_catchall-matches}

abbrev covers_ctor : AdtSeen → ℕ → Bool
covers_ctor s j = s.wildcard_seen || not (any (λ i. i == j) s.remaining)

any-remove :
    (id j : ℕ) (xs : List ℕ)
    → any (λ i. i == j) (remove id xs) ≡ (any (λ i. i == j) xs && not (id == j))
any-remove id j [] = refl
any-remove id j (x ∷ xs) = ground (arith, any-remove id j xs)

any-ctor :
    (v : AdtVariant) (vs : List AdtVariant)
    → Memᴰ v vs
    → any (λ i. i == v.ctor_def_id) (map (λ (w : AdtVariant). w.ctor_def_id) vs) ≡ true
any-ctor v [] m = absurd (Memᴰ.not-nil m)
any-ctor v (w ∷ vs) m = elim (Memᴰ.cases_cons m) [
  | inl e ↦ ground (arith, e)
  | inr later ↦ ground (arith, any-ctor v vs later)
]

module _ (literal_matches : ThirLiteral → Value → Bool) (arity : ℕ → ℕ) where
  see_adt_pattern-covers :
      (p : ThirPattern) (s : AdtSeen) (j : ℕ) (vs : Values)
      → IsFlat arity p
      → value_count vs ≡ arity j
      → covers_ctor (see_adt_pattern p s) j ≡ true
      → (covers_ctor s j || matches literal_matches p (constructed j vs)) ≡ true
  unfolding matches
  see_adt_pattern-covers (constructor id fields _ _) s j vs f n h = elim (Bool-cases (id == j)) [
    | inl e ↦
        let same : id ≡ j = (==_iff id j).0 e in
        let size : pattern_count fields ≡ value_count vs = cc (f.1, n, same) in
        ground (
          arith,
          e,
          (==_iff (pattern_count fields) (value_count vs)).1 size,
          all_catchall-matches literal_matches arity fields vs f.0 size,
        )
    | inr e ↦ ground (arith, e, any-remove id j s.remaining)
  ]
  see_adt_pattern-covers (wildcard _) s j vs f n h = ground arith
  see_adt_pattern-covers (variable _ _ _) s j vs f n h = ground arith
  see_adt_pattern-covers (literal _) s j vs f n h = ground arith
  see_adt_pattern-covers (tuple _ _ _) s j vs f n h = ground arith
  see_adt_pattern-covers (list _ _ _ _) s j vs f n h = ground arith

  empty-covers :
      (s : AdtSeen) (j : ℕ)
      → (s.wildcard_seen || is_empty s.remaining) ≡ true
      → covers_ctor s j ≡ true
  empty-covers s j h = elim (Bool-cases s.wildcard_seen) [
    | inl e ↦ ground (arith, e)
    | inr e ↦ ground (arith, e, none_left s.remaining)
  ]
    where
      none_left : (xs : List ℕ) → is_empty xs ≡ true → any (λ i. i == j) xs ≡ false
      none_left [] h = refl
      none_left (x ∷ xs) h = absurd (ground arith)

  adt_arms-handled :
      (arms : List ThirMatchArm) (s : AdtSeen) (j : ℕ) (vs : Values)
      → AreFlat arity arms
      → value_count vs ≡ arity j
      → ((adt_arms s arms).0.wildcard_seen || is_empty (adt_arms s arms).0.remaining) ≡ true
      → (covers_ctor s j || handled literal_matches arms (constructed j vs)) ≡ true
  unfolding adt_arms
  adt_arms-handled [] s j vs f n h = ground (arith, empty-covers s j h)
  adt_arms-handled (arm ∷ arms) s j vs f n h =
      elim (Bool-cases (adt_arm_is_unreachable s arm.pattern)) [
        | inl e ↦ ground (arith, adt_arms-handled arms s j vs f.1 n (rw (e, adt_arms) at h))
        | inr e ↦ ground (
          arith,
          adt_arms-handled arms (see_adt_pattern arm.pattern s) j vs f.1 n (rw (e, adt_arms) at h),
          see_adt_pattern-covers arm.pattern s j vs f.0 n,
        )
      ]

  pub check_adt_coverage-handled :
      (def : AdtDef) (name : String) (arms : List ThirMatchArm) (span : Span) (v : AdtVariant)
      (vs : Values)
      → AreFlat arity arms
      → Memᴰ v def.variants
      → value_count vs ≡ arity v.ctor_def_id
      → any is_error (check_adt_coverage (some def) name arms span) ≡ false
      → handled literal_matches arms (constructed v.ctor_def_id vs) ≡ true
  unfolding check_adt_coverage
  check_adt_coverage-handled def name arms span v vs f m n h =
      let begin : AdtSeen = record {
        remaining = map (λ (w : AdtVariant). w.ctor_def_id) def.variants;
        wildcard_seen = false;
      } in
      let last = adt_arms begin arms in
      elim (Bool-cases (last.0.wildcard_seen || is_empty last.0.remaining)) [
        | inl e ↦
            ground
              (arith, adt_arms-handled arms begin v.ctor_def_id vs f n e, any-ctor v def.variants m)
        | inr e ↦ absurd (
            ground (
              arith,
              e,
              any-append is_error last.1 (
                  Report.non_exhaustive_adt name (missing_names last.0.remaining def.variants) span
                  ∷ []),
            ))
      ]

  primitive_arms-handled :
      (arms : List ThirMatchArm) (seen : Bool) (v : Value)
      → (primitive_arms seen arms).0 ≡ true
      → (seen || handled literal_matches arms v) ≡ true
  unfolding primitive_arms
  primitive_arms-handled [] seen v h = ground arith
  primitive_arms-handled (arm ∷ arms) seen v h = ground (
    arith,
    primitive_arms-handled arms (seen || is_catchall arm.pattern) v,
    catchall-matches literal_matches arity arm.pattern v,
  )

  pub check_primitive_coverage-handled :
      (arms : List ThirMatchArm) (span : Span) (v : Value)
      → any is_error (check_primitive_coverage arms span) ≡ false
      → handled literal_matches arms v ≡ true
  unfolding check_primitive_coverage
  check_primitive_coverage-handled arms span v h = elim (Bool-cases (primitive_arms false arms).0) [
    | inl e ↦ ground (arith, primitive_arms-handled arms false v e)
    | inr e ↦ absurd (
        ground (
          arith,
          any-append is_error (primitive_arms false arms).1 (Report.non_exhaustive span ∷ []),
        ))
  ]
