-- ===== src/Tests/PurityTests.antt =====
-- A module whose `top` calls `leaf`, which calls `println`.
use asatsuyu.Base.{ℕ, zero, ◌≡◌, ◌↔◌, true, false, refl, Option, none, some, List, [], ◌∷◌, length}
use asatsuyu.Syntax.Span.{dummy}
use asatsuyu.Hir.{HirModule, HirFnDef, Visibility, DefKind, SymbolTable, var, call, no_expr}
use asatsuyu.Purity.{FunctionPurity, is_effectful, EffectSource, effectful}
use asatsuyu.Purity.Scan.{scope_of, entry_of, scan_fn, visit}
use asatsuyu.Purity.Effects.Graph.{OwnEffect}
use asatsuyu.Purity.Propagate.{
  analyze, propagate, loop, round, relax, relax_all, index_from, calls_to, incoming_from,
  seeds_from,
}
use asatsuyu.Purity.Propagate.Relax.{effectful_at}
use asatsuyu.Purity.Check.{PurityError, EffectStep, effect_path, check}
use asatsuyu.Purity.Check.Path.{effect_path_total}
use asatsuyu.Purity.Check.Verdict.{PureAsDeclared, check_lem}
use asatsuyu.Purity.Report.{MayPerform, analyze_lem, is_effectful-entry_of}

abbrev table : SymbolTable
table zero = record { name = "println"; kind = DefKind.builtin; is_mutable = false; span = dummy }
table _ = record { name = "f"; kind = DefKind.function; is_mutable = false; span = dummy }

abbrev calls_only : ℕ → ℕ → HirFnDef
calls_only id callee = record {
  def_id = id;
  visibility = Visibility.public;
  is_async = false;
  pure_span = some dummy;
  params = [];
  return_type = none;
  body = call (var callee dummy) no_expr dummy;
  span = dummy;
}

abbrev module_with_two : HirModule
module_with_two = record {
  imports = [];
  functions = calls_only 1 2 ∷ calls_only 2 0 ∷ [];
  custom_types = [];
  symbol_table = table;
  span = dummy;
}

is_effectful-entry_of_example :
    (is_effectful (entry_of (scope_of module_with_two) (calls_only 2 0)) ≡ true)
    ↔ OwnEffect module_with_two (calls_only 2 0)
is_effectful-entry_of_example = is_effectful-entry_of module_with_two (calls_only 2 0)

analyze_lem_example :
    (report : List FunctionPurity) × (analyze module_with_two ≡ some report)
    × (length report ≡ length module_with_two.functions)
    × ((v : ℕ) → (effectful_at report v ≡ true) ↔ MayPerform module_with_two v)
analyze_lem_example = analyze_lem module_with_two

abbrev effectful_entry : ℕ → EffectSource → Option ℕ → FunctionPurity
effectful_entry id source callee = record {
  def_id = id;
  name = "f";
  purity = effectful;
  origin = some (record { source = source; span = dummy; callee = callee });
  unresolved = [];
}

abbrev two_reports : List FunctionPurity
two_reports =
    effectful_entry 1 EffectSource.propagated (some 2)
    ∷ effectful_entry 2 EffectSource.boundary none
    ∷ []

analyze_run : analyze module_with_two ≡ some two_reports
unfolding analyze propagate loop round relax relax_all index_from calls_to incoming_from seeds_from
    entry_of scan_fn visit
analyze_run = refl

check_lem_example :
    (errors : List PurityError) × (check module_with_two two_reports ≡ some errors)
    × ((errors ≡ []) ↔ PureAsDeclared module_with_two)
check_lem_example = check_lem module_with_two two_reports (refl, (refl, tt)) analyze_run

effect_path_total_example : (path : List EffectStep) × (effect_path two_reports 1 ≡ some path)
effect_path_total_example = effect_path_total two_reports 1
