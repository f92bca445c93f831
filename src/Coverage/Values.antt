-- ===== src/Coverage/Values.antt =====
-- Values, and which of them a pattern matches.
use asatsuyu.Base.{ℕ, Bool, true, false, ◌&&◌, List, String, any, ◌==◌, suc, ◌≡◌, All}
use asatsuyu.Coverage.{is_catchall}
use asatsuyu.Thir.{
  ThirPattern, ThirPatterns, Rest, ThirLiteral, ThirMatchArm, wildcard, variable, literal,
  constructor, tuple, list, no_pattern, then_pattern, no_rest, rest,
}

mutual
  pub data Value : Type 0 where
    literal_value : String → Value
    constructed : ℕ → Values → Value
    tuple_value : Values → Value
    list_value : Values → Value

  pub data Values : Type 0 where
    no_value : Values
    then_value : Value → Values → Values

abbrev pub value_count : Values → ℕ
value_count no_value = 0
value_count (then_value _ vs) = suc (value_count vs)

abbrev pub pattern_count : ThirPatterns → ℕ
pattern_count no_pattern = 0
pattern_count (then_pattern _ ps) = suc (pattern_count ps)

-- The values that are left after as many as there are patterns.
abbrev pub remaining : ThirPatterns → Values → Values
remaining no_pattern vs = vs
remaining (then_pattern _ ps) no_value = no_value
remaining (then_pattern _ ps) (then_value _ vs) = remaining ps vs

-- When a literal pattern matches is a parameter.
module _ (literal_matches : ThirLiteral → Value → Bool) where
  unfoldable mutual
    pub matches : ThirPattern → Value → Bool
    matches (wildcard _) v = true
    matches (variable _ _ _) v = true
    matches (literal l) v = literal_matches l v
    matches (constructor id fields _ _) (constructed j vs) =
        (id == j) && (pattern_count fields == value_count vs) && matches_prefix fields vs
    matches (tuple elements _ _) (tuple_value vs) =
        (pattern_count elements == value_count vs) && matches_prefix elements vs
    matches (list elements r _ _) (list_value vs) =
        matches_prefix elements vs && matches_rest r (remaining elements vs)
    matches _ _ = false

    pub matches_prefix : ThirPatterns → Values → Bool
    matches_prefix no_pattern vs = true
    matches_prefix (then_pattern p ps) no_value = false
    matches_prefix (then_pattern p ps) (then_value v vs) = matches p v && matches_prefix ps vs

    pub matches_rest : Rest → Values → Bool
    matches_rest no_rest no_value = true
    matches_rest no_rest (then_value _ _) = false
    matches_rest (rest p) vs = matches p (list_value vs)

  -- Some arm matches the value.
  abbrev pub handled : List ThirMatchArm → Value → Bool
  handled arms v = any (λ (arm : ThirMatchArm). matches arm.pattern v) arms

abbrev pub all_catchall : ThirPatterns → Bool
all_catchall no_pattern = true
all_catchall (then_pattern p ps) = is_catchall p && all_catchall ps

abbrev pub rest_is_catchall : Rest → Bool
rest_is_catchall no_rest = true
rest_is_catchall (rest p) = is_catchall p

-- The patterns whose parts are wildcards or variables: a list pattern is `[]`, `[..]` or
-- `[x, ..]`, and a constructor pattern has as many fields as the constructor.
abbrev pub IsFlat : (ℕ → ℕ) → ThirPattern → Type 0
IsFlat arity (constructor id fields _ _) =
    (all_catchall fields ≡ true) × (pattern_count fields ≡ arity id)
IsFlat arity (list no_pattern r _ _) = rest_is_catchall r ≡ true
IsFlat arity (list (then_pattern p no_pattern) (rest r) _ _) =
    (is_catchall p ≡ true) × (is_catchall r ≡ true)
IsFlat arity (list _ _ _ _) = ⊥
IsFlat arity _ = Unit

abbrev pub AreFlat : (ℕ → ℕ) → List ThirMatchArm → Type 0
AreFlat arity arms = All (λ (arm : ThirMatchArm). IsFlat arity arm.pattern) arms
