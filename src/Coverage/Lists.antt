-- ===== src/Coverage/Lists.antt =====
-- The coverage check of a match on a list.
use asatsuyu.Base.{
  ℕ, ◌≡◌, refl, Bool, true, false, ◌||◌, List, [], ◌∷◌, any, arith, any-append, Bool-cases, inl,
  inr,
}
use asatsuyu.Syntax.Span.{Span}
use asatsuyu.Thir.{
  ThirPattern, ThirPatterns, ThirLiteral, ThirMatchArm, wildcard, variable, literal, constructor,
  tuple, list, no_pattern, then_pattern, no_rest, rest,
}
use asatsuyu.Coverage.{
  Report, ListSeen, coverage_complete, list_arm_is_reachable, see_list_pattern, list_arms,
  nothing_seen, check_list_coverage, is_catchall, is_error,
}
use asatsuyu.Coverage.Values.{
  Value, Values, list_value, no_value, then_value, matches, matches_prefix, matches_rest, handled,
  all_catchall, IsFlat, AreFlat, value_count, pattern_count,
}

-- The flags cover the shape of the list.
abbrev covers : ListSeen → Values → Bool
covers s no_value = s.catchall_seen || s.empty_seen
covers s (then_value _ _) = s.catchall_seen || s.non_empty_seen

module _ (literal_matches : ThirLiteral → Value → Bool) (arity : ℕ → ℕ) where
  pub catchall-matches :
      (p : ThirPattern) (v : Value) → is_catchall p ≡ true → matches literal_matches p v ≡ true
  unfolding matches
  catchall-matches (wildcard _) v h = refl
  catchall-matches (variable _ _ _) v h = refl
  catchall-matches _ v h = absurd (ground arith)

  pub all_catchall-matches :
      (ps : ThirPatterns) (vs : Values)
      → all_catchall ps ≡ true
      → pattern_count ps ≡ value_count vs
      → matches_prefix literal_matches ps vs ≡ true
  unfolding matches_prefix
  all_catchall-matches no_pattern vs h e = refl
  all_catchall-matches (then_pattern p ps) no_value h e = absurd (ground arith)
  all_catchall-matches (then_pattern p ps) (then_value v vs) h e =
      ground (arith, catchall-matches p v, all_catchall-matches ps vs)

  see_list_pattern-covers :
      (p : ThirPattern) (s : ListSeen) (vs : Values)
      → IsFlat arity p
      → covers (see_list_pattern p s) vs ≡ true
      → (covers s vs || matches literal_matches p (list_value vs)) ≡ true
  unfolding matches matches_prefix matches_rest
  see_list_pattern-covers (list no_pattern no_rest _ _) s no_value f h = ground arith
  see_list_pattern-covers (list no_pattern no_rest _ _) s (then_value v vs) f h = ground arith
  see_list_pattern-covers (list no_pattern (rest r) _ _) s vs f h =
      ground (arith, catchall-matches r (list_value vs) f)
  see_list_pattern-covers (list (then_pattern p no_pattern) (rest r) _ _) s no_value f h =
      ground arith
  see_list_pattern-covers (list (then_pattern p no_pattern) (rest r) _ _) s (then_value v vs) f h =
      ground (arith, catchall-matches p v f.0, catchall-matches r (list_value vs) f.1)
  see_list_pattern-covers (list (then_pattern _ no_pattern) no_rest _ _) s vs f h = absurd f
  see_list_pattern-covers (list (then_pattern _ (then_pattern _ _)) _ _ _) s vs f h = absurd f
  see_list_pattern-covers (wildcard _) s vs f h = ground arith
  see_list_pattern-covers (variable _ _ _) s vs f h = ground arith
  see_list_pattern-covers (literal _) s vs f h = ground arith
  see_list_pattern-covers (constructor _ _ _ _) s vs f h = ground arith
  see_list_pattern-covers (tuple _ _ _) s vs f h = ground arith

  complete-covers : (s : ListSeen) (vs : Values) → coverage_complete s ≡ true → covers s vs ≡ true
  complete-covers s no_value h = ground arith
  complete-covers s (then_value v vs) h = ground arith

  list_arms-handled :
      (arms : List ThirMatchArm) (s : ListSeen) (vs : Values)
      → AreFlat arity arms
      → coverage_complete (list_arms s arms).0 ≡ true
      → (covers s vs || handled literal_matches arms (list_value vs)) ≡ true
  unfolding list_arms
  list_arms-handled [] s vs f h = ground (arith, complete-covers s vs h)
  list_arms-handled (arm ∷ arms) s vs f h =
      elim (Bool-cases (list_arm_is_reachable s arm.pattern)) [
        | inl e ↦ ground (
          arith,
          list_arms-handled arms (see_list_pattern arm.pattern s) vs f.1 (rw (e, list_arms) at h),
          see_list_pattern-covers arm.pattern s vs f.0,
        )
        | inr e ↦ ground (arith, list_arms-handled arms s vs f.1 (rw (e, list_arms) at h))
      ]

  pub check_list_coverage-handled :
      (arms : List ThirMatchArm) (span : Span) (vs : Values)
      → AreFlat arity arms
      → any is_error (check_list_coverage arms span) ≡ false
      → handled literal_matches arms (list_value vs) ≡ true
  unfolding check_list_coverage
  check_list_coverage-handled arms span vs f h =
      elim (Bool-cases (coverage_complete (list_arms nothing_seen arms).0)) [
        | inl e ↦ ground (arith, list_arms-handled arms nothing_seen vs f e, covers nothing_seen vs)
        | inr e ↦ absurd (
            ground (
              arith,
              any-append is_error (list_arms nothing_seen arms).1
                  (Report.non_exhaustive_list span ∷ []),
            ))
      ]
