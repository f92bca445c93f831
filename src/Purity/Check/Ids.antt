-- ===== src/Purity/Check/Ids.antt =====
-- The definitions of a report are those of the module, in order.
use asatsuyu.Base.{
  ℕ, zero, suc, ◌≡◌, refl, ◌∙◌, ap, some, List, [], ◌∷◌, map, get_elem?, set, arith, Option-cases,
  Bool-cases, inl, inr, List-cases, length,
}
use asatsuyu.Syntax.Span.{Span}
use asatsuyu.Hir.{HirModule, HirFnDef}
use asatsuyu.Purity.{FunctionPurity, is_effectful}
use asatsuyu.Purity.Scan.{Scope, entry_of, scope_of}
use asatsuyu.Purity.Propagate.{
  State, tainted, relax, relax_all, round, loop, propagate, analyze, entries, def_at, seeds_from,
}

abbrev pub ids : List FunctionPurity → List ℕ
ids [] = []
ids (f ∷ fs) = f.def_id ∷ ids fs

abbrev pub fn_ids : List HirFnDef → List ℕ
fn_ids [] = []
fn_ids (f ∷ fs) = f.def_id ∷ fn_ids fs

ids-set :
    (fs : List FunctionPurity) (i : ℕ) (f : FunctionPurity) (callee : ℕ) (span : Span)
    → get_elem? fs i ≡ some f
    → ids (set fs i (tainted callee span f)) ≡ ids fs
ids-set [] i f callee span h = refl
ids-set (g ∷ fs) zero f callee span h = ground arith
ids-set (g ∷ fs) (suc i) f callee span h = ap (λ xs. g.def_id ∷ xs) (ids-set fs i f callee span h)

ids-relax :
    (callee : ℕ) (s : State) (call : ℕ × Span)
    → ids (relax callee s call).functions ≡ ids s.functions
unfolding relax
ids-relax callee s (caller, span) = elim (Option-cases (get_elem? s.functions caller)) [
  | inl e ↦ rw (e, relax) refl
  | inr (f, e) ↦ elim (Bool-cases (is_effectful f)) [
    | inl t ↦ rw (e, t, relax) refl
    | inr t ↦ rw (e, t, relax) (ids-set s.functions caller f callee span e)
  ]
]

ids-relax_all :
    (callee : ℕ) (s : State) (calls : List (ℕ × Span))
    → ids (relax_all callee s calls).functions ≡ ids s.functions
unfolding relax_all
ids-relax_all callee s [] = refl
ids-relax_all callee s (call ∷ calls) =
    ids-relax_all callee (relax callee s call) calls ∙ ids-relax callee s call

ids-loop :
    (incoming : ℕ → List (ℕ × Span)) (n : ℕ) (s : State) (result : List FunctionPurity)
    → loop incoming n s ≡ some result
    → ids result ≡ ids s.functions
unfolding loop round
ids-loop incoming zero s result h = elim (List-cases s.worklist) [
  | inl e ↦ ground (arith, e, h)
  | inr (current, rest, e) ↦ absurd (ground (arith, e, h))
]
ids-loop incoming (suc n) s result h = elim (List-cases s.worklist) [
  | inl e ↦ ground (arith, e, h)
  | inr (current, rest, e) ↦
      ids-loop incoming n (round incoming s current rest) result (rw (e, loop) at h)
      ∙ ids-relax_all (def_at s.functions current) (record s { worklist = rest }) (incoming current)
]

ids-entries : (sc : Scope) (fs : List HirFnDef) → ids (map (entry_of sc) fs) ≡ fn_ids fs
unfolding entry_of
ids-entries sc [] = refl
ids-entries sc (f ∷ fs) = ap (λ xs. f.def_id ∷ xs) (ids-entries sc fs)

pub ids-analyze :
    (m : HirModule) (report : List FunctionPurity)
    → analyze m ≡ some report
    → ids report ≡ fn_ids m.functions
unfolding analyze propagate
ids-analyze m report h =
    ids-loop _ (length (entries m))
      (record { functions = entries m; worklist = seeds_from 0 (entries m) }) report h
    ∙ ids-entries (scope_of m) m.functions
