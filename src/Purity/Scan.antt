-- ===== src/Purity/Scan.antt =====
-- The scan of one function body in purity.rs: direct effects, call edges and unresolved calls, in
-- source order.
pub mod Sites
use text.Mathlib.Text.{◌==◌ as str_eq}
use asatsuyu.Base.{
  ℕ, Bool, true, false, ◌&&◌, Option, none, some, List, [], ◌∷◌, ◌++◌, String, any, ◌==◌,
  if◌then◌else◌,
}
use asatsuyu.Syntax.Span.{Span}
use asatsuyu.Hir.{
  HirExpr, HirExprs, HirExprOption, HirMatchArms, HirImport, HirImportKind, HirModule, HirFnDef,
  SymbolTable, DefKind, literal, var, block, call, binary_op, unary_op, if_expr, match_expr,
  let_expr, assign, lambda, field_access, try_expr, await_expr, list, no_expr, then_expr, absent,
  present, no_arm, then_arm,
}
use asatsuyu.Purity.{
  EffectSource, EffectOrigin, FunctionPurity, pure, effectful, UnresolvedCall, UnresolvedCallKind,
  boundary, async, parameter_applied, local_applied, receiver_untyped, module_member,
  computed_callee,
}

abbrev pub effectful_builtins : List String
effectful_builtins = "println" ∷ []

-- What the scan reads: the symbol table and the definitions of the Python imports.
pub record Scope : Type 0 where
  pub symbol_table : SymbolTable
  pub python_imports : List ℕ

pub record Scan : Type 0 where
  pub proven : Option EffectOrigin
  pub assumed : Option EffectOrigin
  pub callees : List (ℕ × Span)
  pub unresolved : List UnresolvedCall

abbrev pub is_python : Scope → ℕ → Bool
is_python sc id = any (λ i. i == id) sc.python_imports

-- The first effect in source order stays.
abbrev pub first_of_two : Option EffectOrigin → EffectOrigin → Option EffectOrigin
first_of_two none o = some o
first_of_two (some p) o = some p

abbrev pub mark : EffectSource → Span → Scan → Scan
mark source span s = record s {
  proven = first_of_two s.proven (record { source = source; span = span; callee = none });
}

abbrev pub note_unresolved : Span → UnresolvedCallKind → Scan → Scan
note_unresolved span kind s = record s {
  unresolved = s.unresolved ++ record { span = span; kind = kind } ∷ [];
  assumed =
      first_of_two s.assumed
        (record { source = EffectSource.unresolved; span = span; callee = none });
}

abbrev pub add_callee : ℕ → Span → Scan → Scan
add_callee id span s = record s { callees = s.callees ++ (id, span) ∷ [] }

-- The name at the root of a chain of field accesses.
abbrev pub root_def : HirExpr → Option ℕ
root_def (var id _) = some id
root_def (field_access receiver _ _) = root_def receiver
root_def _ = none

abbrev pub classify_import : Scope → ℕ → Span → Scan → Scan
classify_import sc id span s =
    if is_python sc id then mark boundary span s else note_unresolved span module_member s

abbrev pub classify_applied : Scope → ℕ → Span → Scan → Scan
classify_applied sc id span s = elim (sc.symbol_table id).kind [
  | DefKind.function ↦ add_callee id span s
  | DefKind.builtin ↦
      if any (λ b. str_eq b (sc.symbol_table id).name) effectful_builtins
      then mark boundary span s
      else s
  | DefKind.constructor ↦ s
  | DefKind.type_name ↦ s
  | DefKind.parameter ↦ note_unresolved span parameter_applied s
  | DefKind.local_binding ↦ note_unresolved span local_applied s
  | DefKind.import ↦ classify_import sc id span s
]

abbrev pub classify_member : Scope → ℕ → Span → Scan → Scan
classify_member sc id span s = elim (sc.symbol_table id).kind [
  | DefKind.import ↦ classify_import sc id span s
  | DefKind.builtin ↦ s
  | DefKind.constructor ↦ s
  | DefKind.type_name ↦ s
  | DefKind.parameter ↦ note_unresolved span receiver_untyped s
  | DefKind.local_binding ↦ note_unresolved span receiver_untyped s
  | DefKind.function ↦ note_unresolved span receiver_untyped s
]

-- An attribute read rooted at a Python import crosses the boundary.
abbrev pub mark_access : Scope → Option ℕ → Span → Scan → Scan
mark_access sc none span s = s
mark_access sc (some root) span s = if is_python sc root then mark boundary span s else s

-- Where an expression stands: `visit` is the scan at `anywhere`, and `visit_callee` with the span
-- of the call the scan at `callee`.
pub data Position : Type 0 where
  anywhere : Position
  callee : Span → Position

-- A callee that is no name counts as an unresolved call, and is then visited like any expression.
abbrev pub enter : Position → Scan → Scan
enter anywhere s = s
enter (callee span) s = note_unresolved span computed_callee s

unfoldable mutual
  pub visit : Scope → Position → HirExpr → Scan → Scan
  visit sc anywhere (var _ _) s = s
  visit sc (callee span) (var id _) s = classify_applied sc id span s
  visit sc anywhere (field_access receiver _ span) s =
      visit sc anywhere receiver (mark_access sc (root_def receiver) span s)
  visit sc (callee span) (field_access receiver _ _) s = elim (root_def receiver) [
    | some root ↦ classify_member sc root span s
    | none ↦ visit sc anywhere receiver (note_unresolved span computed_callee s)
  ]
  visit sc at (literal _) s = enter at s
  visit sc at (call func args span) s = visit_all sc args (visit sc (callee span) func (enter at s))
  visit sc at (try_expr e span) s = visit sc anywhere e (mark boundary span (enter at s))
  visit sc at (await_expr e span) s = visit sc anywhere e (mark async span (enter at s))
  visit sc at (block items _) s = visit_all sc items (enter at s)
  visit sc at (list items _) s = visit_all sc items (enter at s)
  visit sc at (binary_op _ lhs rhs _) s = visit sc anywhere rhs (visit sc anywhere lhs (enter at s))
  visit sc at (unary_op _ e _) s = visit sc anywhere e (enter at s)
  visit sc at (lambda _ _ body _) s = visit sc anywhere body (enter at s)
  visit sc at (if_expr condition then_body else_body _) s =
      visit_option sc else_body
        (visit sc anywhere then_body (visit sc anywhere condition (enter at s)))
  visit sc at (match_expr subject arms _) s =
      visit_arms sc arms (visit sc anywhere subject (enter at s))
  visit sc at (let_expr _ value _ _) s = visit sc anywhere value (enter at s)
  visit sc at (assign _ value _ _) s = visit sc anywhere value (enter at s)

  pub visit_all : Scope → HirExprs → Scan → Scan
  visit_all sc no_expr s = s
  visit_all sc (then_expr e es) s = visit_all sc es (visit sc anywhere e s)

  pub visit_option : Scope → HirExprOption → Scan → Scan
  visit_option sc absent s = s
  visit_option sc (present e) s = visit sc anywhere e s

  pub visit_arms : Scope → HirMatchArms → Scan → Scan
  visit_arms sc no_arm s = s
  visit_arms sc (then_arm _ guard body _ arms) s =
      visit_arms sc arms (visit sc anywhere body (visit_option sc guard s))

-- The scan of a function: an `async` function starts with a proven effect.
abbrev pub start : HirFnDef → Scan
start f = record {
  proven =
      if f.is_async then some (record { source = async; span = f.span; callee = none }) else none;
  assumed = none;
  callees = [];
  unresolved = [];
}

-- `scan.proven.or(scan.assumed)`
abbrev pub origin_of : Scan → Option EffectOrigin
origin_of s = elim s.proven [ some o ↦ some o | none ↦ s.assumed ]

unfoldable pub scan_fn : Scope → HirFnDef → Scan
unfolding visit
scan_fn sc f = visit sc anywhere f.body (start f)

-- The entry of one function before propagation.
unfoldable pub entry_of : Scope → HirFnDef → FunctionPurity
unfolding scan_fn
entry_of sc f =
    let scan = scan_fn sc f in
    record {
      def_id = f.def_id;
      name = (sc.symbol_table f.def_id).name;
      purity = elim (origin_of scan) [ some _ ↦ effectful | none ↦ pure ];
      origin = origin_of scan;
      unresolved = scan.unresolved;
    }

abbrev pub is_python_import : HirImport → Bool
is_python_import i = elim i.kind [
  | HirImportKind.python _ ↦ true
  | HirImportKind.module_path _ ↦ false
]

abbrev pub python_ids : List HirImport → List ℕ
python_ids [] = []
python_ids (i ∷ imports) =
    if is_python_import i then i.def_id ∷ python_ids imports else python_ids imports

abbrev pub scope_of : HirModule → Scope
scope_of m = record { symbol_table = m.symbol_table; python_imports = python_ids m.imports }
