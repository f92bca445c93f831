-- ===== src/Coverage.antt =====
-- The exhaustiveness and reachability checks of asatsuyu/crates/asatsuyu-ty/src/check.rs.
pub mod Values
pub mod Lists
pub mod Adts
pub mod Exhaustive
use text.Mathlib.Text.{◌==◌ as str_eq}
use asatsuyu.Base.{
  ℕ, Bool, true, false, not, ◌&&◌, ◌||◌, Option, none, some, List, [], ◌∷◌, ◌++◌, map, String, any,
  ◌==◌, if◌then◌else◌,
}
use asatsuyu.Syntax.Span.{Span}
use asatsuyu.Types.{Ty, primitive, named}
use asatsuyu.Thir.{
  ThirPattern, ThirMatchArm, wildcard, variable, literal, constructor, tuple, list, no_pattern,
  then_pattern, no_rest, rest,
}

-- The fields of a variant and of a definition that the check reads.
pub record AdtVariant : Type 0 where
  pub ctor_def_id : ℕ
  pub name : String

pub record AdtDef : Type 0 where
  pub type_params : List String
  pub variants : List AdtVariant

-- E0301, and E0300 with what its message depends on.
pub data Report : Type 0 where
  unreachable_arm : Span → Report
  non_exhaustive_list : Span → Report
  non_exhaustive_adt : String → List String → Span → Report
  non_exhaustive : Span → Report

-- The flags of `check_list_coverage`.
pub record ListSeen : Type 0 where
  pub empty_seen : Bool
  pub non_empty_seen : Bool
  pub catchall_seen : Bool

abbrev pub coverage_complete : ListSeen → Bool
coverage_complete s = s.catchall_seen || (s.empty_seen && s.non_empty_seen)

abbrev pub list_pattern_is_new : ListSeen → ThirPattern → Bool
list_pattern_is_new s (list no_pattern no_rest _ _) = not s.empty_seen
list_pattern_is_new s (list no_pattern (rest _) _ _) = true
list_pattern_is_new s (list (then_pattern _ _) _ _ _) = not s.non_empty_seen
list_pattern_is_new s _ = true

abbrev pub list_arm_is_reachable : ListSeen → ThirPattern → Bool
list_arm_is_reachable s p = not (coverage_complete s) && list_pattern_is_new s p

abbrev pub see_list_pattern : ThirPattern → ListSeen → ListSeen
see_list_pattern (wildcard _) s = record s { catchall_seen = true }
see_list_pattern (variable _ _ _) s = record s { catchall_seen = true }
see_list_pattern (list no_pattern no_rest _ _) s = record s { empty_seen = true }
see_list_pattern (list no_pattern (rest _) _ _) s = record s {
  empty_seen = true;
  non_empty_seen = true;
}
see_list_pattern (list (then_pattern _ _) _ _ _) s = record s { non_empty_seen = true }
see_list_pattern _ s = s

-- The loop over the arms: the flags at its end and the reports on the way.
unfoldable pub list_arms : ListSeen → List ThirMatchArm → ListSeen × List Report
list_arms s [] = (s, [])
list_arms s (arm ∷ arms) =
    let after = list_arms (see_list_pattern arm.pattern s) arms in
    let skipped = list_arms s arms in
    if list_arm_is_reachable s arm.pattern
    then after
    else (skipped.0, unreachable_arm arm.span ∷ skipped.1)

abbrev pub nothing_seen : ListSeen
nothing_seen = record { empty_seen = false; non_empty_seen = false; catchall_seen = false }

unfoldable pub check_list_coverage : List ThirMatchArm → Span → List Report
unfolding list_arms
check_list_coverage arms match_span =
    let (s, reports) = list_arms nothing_seen arms in
    if coverage_complete s then reports else reports ++ non_exhaustive_list match_span ∷ []

-- `HashSet::remove` on the set of the constructors that are not covered yet.
abbrev pub remove : ℕ → List ℕ → List ℕ
remove id [] = []
remove id (x ∷ xs) = if x == id then remove id xs else x ∷ remove id xs

abbrev pub is_empty {ℓ} : {A : Type ℓ} → List A → Bool
is_empty [] = true
is_empty (_ ∷ _) = false

pub record AdtSeen : Type 0 where
  pub remaining : List ℕ
  pub wildcard_seen : Bool

abbrev pub adt_arm_is_unreachable : AdtSeen → ThirPattern → Bool
adt_arm_is_unreachable s (constructor _ _ _ _) = s.wildcard_seen
adt_arm_is_unreachable s _ = s.wildcard_seen || is_empty s.remaining

abbrev pub see_adt_pattern : ThirPattern → AdtSeen → AdtSeen
see_adt_pattern (constructor id _ _ _) s = record s { remaining = remove id s.remaining }
see_adt_pattern (wildcard _) s = record s { wildcard_seen = true }
see_adt_pattern (variable _ _ _) s = record s { wildcard_seen = true }
see_adt_pattern _ s = s

unfoldable pub adt_arms : AdtSeen → List ThirMatchArm → AdtSeen × List Report
adt_arms s [] = (s, [])
adt_arms s (arm ∷ arms) =
    let after = adt_arms (see_adt_pattern arm.pattern s) arms in
    let skipped = adt_arms s arms in
    if adt_arm_is_unreachable s arm.pattern
    then (skipped.0, unreachable_arm arm.span ∷ skipped.1)
    else after

abbrev pub missing_names : List ℕ → List AdtVariant → List String
missing_names remaining [] = []
missing_names remaining (v ∷ vs) =
    if any (λ id. id == v.ctor_def_id) remaining
    then v.name ∷ missing_names remaining vs
    else missing_names remaining vs

-- A type that the registry does not know has no check.
unfoldable pub check_adt_coverage : Option AdtDef → String → List ThirMatchArm → Span → List Report
unfolding adt_arms
check_adt_coverage none type_name arms match_span = []
check_adt_coverage (some def) type_name arms match_span =
    let (s, reports) =
      adt_arms
        (record {
          remaining = map (λ (v : AdtVariant). v.ctor_def_id) def.variants;
          wildcard_seen = false;
        })
        arms in
    if not s.wildcard_seen && not (is_empty s.remaining)
    then reports
      ++ non_exhaustive_adt type_name (missing_names s.remaining def.variants) match_span ∷ []
    else reports

abbrev pub is_catchall : ThirPattern → Bool
is_catchall (wildcard _) = true
is_catchall (variable _ _ _) = true
is_catchall _ = false

unfoldable pub primitive_arms : Bool → List ThirMatchArm → Bool × List Report
primitive_arms catchall_seen [] = (catchall_seen, [])
primitive_arms catchall_seen (arm ∷ arms) =
    let (seen, reports) = primitive_arms (catchall_seen || is_catchall arm.pattern) arms in
    (seen, if catchall_seen then unreachable_arm arm.span ∷ reports else reports)

unfoldable pub check_primitive_coverage : List ThirMatchArm → Span → List Report
unfolding primitive_arms
check_primitive_coverage arms match_span =
    let (seen, reports) = primitive_arms false arms in
    if seen then reports else reports ++ non_exhaustive match_span ∷ []

-- The check on the resolved type of the subject.
unfoldable pub check_match_coverage :
    (ℕ → Option AdtDef) → Ty → List ThirMatchArm → Span → List Report
unfolding check_list_coverage check_adt_coverage check_primitive_coverage
check_match_coverage registry (named def_id name _) arms match_span =
    if str_eq name "List"
    then check_list_coverage arms match_span
    else check_adt_coverage (registry def_id) name arms match_span
check_match_coverage registry (primitive _) arms match_span =
    check_primitive_coverage arms match_span
check_match_coverage registry _ arms match_span = []

-- One of the reports is an E0300.
abbrev pub is_error : Report → Bool
is_error (unreachable_arm _) = false
is_error _ = true
