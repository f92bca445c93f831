-- ===== src/Purity/Check.antt =====
-- `effect_path` and the check of `pure` declarations of purity.rs. A diagnostic is a value that
-- holds what its message and labels are built from.
pub mod Path
pub mod Ids
pub mod Verdict
use asatsuyu.Base.{
  ℕ, zero, suc, ◌+◌, Bool, true, false, not, Option, none, some, List, [], ◌∷◌, ◌++◌, String, any,
  find, ◌==◌, if◌then◌else◌, ◌>>=◌, length,
}
use mathlib.Core.Option
use asatsuyu.Syntax.Span.{Span}
use asatsuyu.Hir.{HirModule, HirFnDef}
use asatsuyu.Purity.{FunctionPurity, EffectOrigin, Purity, pure, effectful, is_proven}
use asatsuyu.Purity.Propagate.{purity_of}

pub record EffectStep : Type 0 where
  pub def_id : ℕ
  pub name : String
  pub origin : EffectOrigin
  pub callee_name : Option String

-- `self.functions.iter().find(|f| f.def_id == id)`
abbrev pub function_of : List FunctionPurity → ℕ → Option FunctionPurity
function_of functions id = find (λ (f : FunctionPurity). f.def_id == id) functions

abbrev pub name_of : List FunctionPurity → ℕ → Option String
name_of functions id = Option.map (λ (f : FunctionPurity). f.name) (function_of functions id)

abbrev pub step_of : List FunctionPurity → ℕ → FunctionPurity → EffectOrigin → EffectStep
step_of functions current f o = record {
  def_id = current;
  name = f.name;
  origin = o;
  callee_name = elim o.callee [ some callee ↦ name_of functions callee | none ↦ none ];
}

-- The loop from `current` on, with fuel; `none` means that the fuel ran out.
unfoldable pub effect_path_from : ℕ → List FunctionPurity → List ℕ → ℕ → Option (List EffectStep)
unfolding find
effect_path_from zero functions seen current = none
effect_path_from (suc fuel) functions seen current = elim (any (λ i. i == current) seen) [
  | true ↦ some []
  | false ↦ elim (function_of functions current) [
    | none ↦ some []
    | some f ↦ elim f.origin [
      | none ↦ some []
      | some o ↦ elim o.callee [
        | none ↦ some (step_of functions current f o ∷ [])
        | some callee ↦ effect_path_from fuel functions (current ∷ seen) callee >>= λ path.
            some (step_of functions current f o ∷ path)
      ]
    ]
  ]
]

-- No function is followed twice, so one round more than functions is enough.
unfoldable pub effect_path : List FunctionPurity → ℕ → Option (List EffectStep)
unfolding effect_path_from
effect_path functions id = effect_path_from (length functions + 1) functions [] id

-- E0155, and E0154 with its path and whether it has the note on calls that cannot be resolved.
pub data PurityError : Type 0 where
  pure_and_async : String → Span → PurityError
  reaches_effect : String → Span → List EffectStep → Bool → PurityError

-- `path.last().is_some_and(|step| !step.origin.source.is_proven())`
abbrev pub ends_assumed : List EffectStep → Bool
ends_assumed [] = false
ends_assumed (step ∷ []) = not (is_proven step.origin.source)
ends_assumed (_ ∷ step ∷ steps) = ends_assumed (step ∷ steps)

abbrev pub is_effectful_in : List FunctionPurity → ℕ → Bool
is_effectful_in report id = elim (purity_of report id) [
  | none ↦ false
  | some pure ↦ false
  | some effectful ↦ true
]

-- The check of one function.
unfoldable pub check_fn : HirModule → List FunctionPurity → HirFnDef → Option (List PurityError)
unfolding effect_path purity_of
check_fn m report f = elim f.pure_span [
  | none ↦ some []
  | some span ↦ elim f.is_async [
    | true ↦ some (pure_and_async (m.symbol_table f.def_id).name span ∷ [])
    | false ↦ elim (is_effectful_in report f.def_id) [
      | false ↦ some []
      | true ↦ effect_path report f.def_id >>= λ path.
          some (reaches_effect (m.symbol_table f.def_id).name span path (ends_assumed path) ∷ [])
    ]
  ]
]

unfoldable pub check_fns :
    HirModule → List FunctionPurity → List HirFnDef → Option (List PurityError)
unfolding check_fn
check_fns m report [] = some []
check_fns m report (f ∷ functions) =
    check_fn m report f >>= λ first. check_fns m report functions >>= λ later. some (first ++ later)

unfoldable pub check : HirModule → List FunctionPurity → Option (List PurityError)
unfolding check_fns
check m report = check_fns m report m.functions
