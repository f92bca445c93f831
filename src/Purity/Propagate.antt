-- ===== src/Purity/Propagate.antt =====
-- `propagate`, `analyze` and the report of purity.rs. The work list is a stack whose top is the end
-- of the source's vector, and `index` and `incoming` are its two maps.
pub mod Relax
pub mod Fixpoint
pub mod CallGraph
use asatsuyu.Base.{
  ℕ, zero, suc, ◌+◌, Bool, true, false, Option, none, some, List, [], ◌∷◌, ◌++◌, map, ◌==◌,
  if◌then◌else◌, get_elem?, set, length, find,
}
use mathlib.Core.Option
use asatsuyu.Syntax.Span.{Span}
use asatsuyu.Hir.{HirModule, HirFnDef}
use asatsuyu.Purity.{
  Purity, pure, effectful, EffectOrigin, EffectSource, FunctionPurity, is_effectful,
}
use asatsuyu.Purity.Scan.{Scope, Scan, scan_fn, entry_of, scope_of}

-- The map from a definition to its position, where a later entry replaces an earlier one.
unfoldable pub index_from : ℕ → List FunctionPurity → ℕ → Option ℕ
index_from i [] id = none
index_from i (f ∷ functions) id = elim (index_from (i + 1) functions id) [
  | some j ↦ some j
  | none ↦ if f.def_id == id then some i else none
]

abbrev pub Edges : Type 0
Edges = List (List (ℕ × Span))

-- The calls in one body that lead to the function at `target`, with the position of the caller.
unfoldable pub calls_to : (ℕ → Option ℕ) → ℕ → ℕ → List (ℕ × Span) → List (ℕ × Span)
calls_to index target caller [] = []
calls_to index target caller ((callee, span) ∷ callees) =
    let rest = calls_to index target caller callees in
    elim (index callee) [
      | none ↦ rest
      | some i ↦ if i == target then (caller, span) ∷ rest else rest
    ]

-- The reversed call graph: the callers of the function at `target`.
unfoldable pub incoming_from : (ℕ → Option ℕ) → ℕ → Edges → ℕ → List (ℕ × Span)
unfolding calls_to
incoming_from index caller [] target = []
incoming_from index caller (callees ∷ edges) target =
    calls_to index target caller callees ++ incoming_from index (caller + 1) edges target

pub record State : Type 0 where
  pub functions : List FunctionPurity
  pub worklist : List ℕ

abbrev pub tainted : ℕ → Span → FunctionPurity → FunctionPurity
tainted callee span f = record f {
  purity = effectful;
  origin = some (record { source = EffectSource.propagated; span = span; callee = some callee });
}

-- One caller: a pure one becomes effectful, with the call to blame, and is put on the work list.
unfoldable pub relax : ℕ → State → ℕ × Span → State
relax callee s (caller, span) = elim (get_elem? s.functions caller) [
  | none ↦ s
  | some f ↦ if is_effectful f then s else record {
    functions = set s.functions caller (tainted callee span f);
    worklist = caller ∷ s.worklist;
  }
]

unfoldable pub relax_all : ℕ → State → List (ℕ × Span) → State
unfolding relax
relax_all callee s [] = s
relax_all callee s (call ∷ calls) = relax_all callee (relax callee s call) calls

-- The work list at the start, with its top first: the last effectful function on top.
unfoldable pub seeds_from : ℕ → List FunctionPurity → List ℕ
seeds_from i [] = []
seeds_from i (f ∷ functions) =
    let rest = seeds_from (i + 1) functions in if is_effectful f then rest ++ i ∷ [] else rest

-- The definition at a position of the work list.
abbrev pub def_at : List FunctionPurity → ℕ → ℕ
def_at functions i = elim (get_elem? functions i) [ some f ↦ f.def_id | none ↦ 0 ]

module _ (incoming : ℕ → List (ℕ × Span)) where
  unfoldable pub round : State → ℕ → List ℕ → State
  unfolding relax_all
  round s current rest =
      relax_all (def_at s.functions current) (record s { worklist = rest }) (incoming current)

  -- The loop, with fuel; `none` means that the fuel ran out.
  unfoldable pub loop : ℕ → State → Option (List FunctionPurity)
  loop zero s = elim s.worklist [ [] ↦ some s.functions | _ ∷ _ ↦ none ]
  loop (suc fuel) s = elim s.worklist [
    | [] ↦ some s.functions
    | current ∷ rest ↦ loop fuel (round s current rest)
  ]

-- A function is put on the work list at most once, so as many rounds as functions are enough.
unfoldable pub propagate : List FunctionPurity → Edges → Option (List FunctionPurity)
propagate functions edges =
    loop (incoming_from (index_from 0 functions) 0 edges) (length functions)
      (record { functions = functions; worklist = seeds_from 0 functions })

abbrev pub entries : HirModule → List FunctionPurity
entries m = map (entry_of (scope_of m)) m.functions

abbrev pub call_edges : HirModule → Edges
call_edges m = map (λ f. (scan_fn (scope_of m) f).callees) m.functions

-- The report of a module.
unfoldable pub analyze : HirModule → Option (List FunctionPurity)
unfolding propagate
analyze m = propagate (entries m) (call_edges m)

unfoldable pub purity_of : List FunctionPurity → ℕ → Option Purity
purity_of functions id =
    Option.map (λ (f : FunctionPurity). f.purity) (find (λ f. f.def_id == id) functions)
