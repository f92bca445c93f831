-- ===== src/Tests/CoverageTests.antt =====
-- A match on `Option` with an arm per variant.
use mathlib.Core.List.Memᴰ
use asatsuyu.Base.{ℕ, zero, Bool, false, Option, some, List, [], ◌∷◌}
use asatsuyu.Syntax.Span.{dummy}
use asatsuyu.Types.{Ty, named, nil}
use asatsuyu.Thir.{ThirMatchArm, ThirLiteral, constructor, wildcard, no_pattern, then_pattern}
use asatsuyu.Coverage.{AdtDef, AdtVariant}
use asatsuyu.Coverage.Values.{Value, constructed, literal_value, no_value, then_value}

abbrev none_variant : AdtVariant
none_variant = record { ctor_def_id = 0; name = "None" }

abbrev some_variant : AdtVariant
some_variant = record { ctor_def_id = 1; name = "Some" }

abbrev option_def : AdtDef
option_def = record { type_params = "a" ∷ []; variants = none_variant ∷ some_variant ∷ [] }

abbrev registry : ℕ → Option AdtDef
registry _ = some option_def

abbrev option : Ty
option = named 9 "Option" nil

abbrev arms : List ThirMatchArm
arms =
    record { pattern = constructor 0 no_pattern option dummy; span = dummy }
    ∷ record {
      pattern = constructor 1 (then_pattern (wildcard dummy) no_pattern) option dummy;
      span = dummy;
    }
    ∷ []

abbrev arity : ℕ → ℕ
arity zero = 0
arity _ = 1

abbrev no_literal : ThirLiteral → Value → Bool
no_literal _ _ = false

abbrev some_one : Value
some_one = constructed 1 (then_value (literal_value "1") no_value)
