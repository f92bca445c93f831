-- ===== src/Purity/Effects/Roots.antt =====
-- The roots of member chains and the imports of Python modules, against the syntax.
use mathlib.Core.Path.{subst}
use mathlib.Core.List.Memᴰ
use asatsuyu.Base.{
  ℕ, ◌≡◌, refl, inl, inr, true, false, any, ◌==◌, ==_iff, none, some, List, [], ◌∷◌, Memᴰ, arith,
  Bool-cases,
}
use asatsuyu.Hir.{HirExpr, HirImport, HirImportKind, literal, var, field_access}
use asatsuyu.Purity.Scan.{root_def, python_ids, is_python_import}
use asatsuyu.Purity.Effects.{RootedAt, HasRoot, IsPython}

pub root_def-RootedAt : (e : HirExpr) (id : ℕ) → root_def e ≡ some id → RootedAt e id
root_def-RootedAt (var i s) id h = cc
root_def-RootedAt (field_access r f s) id h = root_def-RootedAt r id h
root_def-RootedAt (literal l) id h = absurd (cc h)
root_def-RootedAt _ id h = absurd (cc h)

pub RootedAt-root_def : (e : HirExpr) (id : ℕ) → RootedAt e id → root_def e ≡ some id
RootedAt-root_def (var i s) id h = cc
RootedAt-root_def (field_access r f s) id h = RootedAt-root_def r id h
RootedAt-root_def (literal l) id h = absurd h
RootedAt-root_def _ id h = absurd h

pub no_root : (e : HirExpr) → root_def e ≡ none → ¬ HasRoot e
no_root e h (id, r) = let found = RootedAt-root_def e id r in absurd (cc (h, found))

-- The python imports among some imports.
abbrev pub Among : List HirImport → ℕ → Type 0
Among imports id = (i : HirImport) × Memᴰ i imports × (i.def_id ≡ id) × IsPython i.kind

of_python :
    (kind : HirImportKind)
    → IsPython kind
    → elim kind [ HirImportKind.python _ ↦ true | HirImportKind.module_path _ ↦ false ] ≡ true
of_python (HirImportKind.python _) h = refl
of_python (HirImportKind.module_path _) h = absurd h

to_python :
    (kind : HirImportKind)
    → elim kind [ HirImportKind.python _ ↦ true | HirImportKind.module_path _ ↦ false ] ≡ true
    → IsPython kind
to_python (HirImportKind.python _) h = tt
to_python (HirImportKind.module_path _) h = absurd (cc h)

pub python_ids_sound :
    (imports : List HirImport) (id : ℕ)
    → any (λ i. i == id) (python_ids imports) ≡ true
    → Among imports id
python_ids_sound [] id h = absurd (cc h)
python_ids_sound (i ∷ imports) id h = elim (Bool-cases (is_python_import i)) [
  | inr e ↦
      let (j, m, same, p) = python_ids_sound imports id (ground (arith, e, h)) in
      (j, Memᴰ.tail m, same, p)
  | inl e ↦ elim (Bool-cases (i.def_id == id)) [
    | inl s ↦ (i, Memᴰ.head refl, (==_iff i.def_id id).0 s, to_python i.kind e)
    | inr s ↦
        let (j, m, same, p) = python_ids_sound imports id (ground (arith, e, s, h)) in
        (j, Memᴰ.tail m, same, p)
  ]
]

pub python_ids_complete :
    (imports : List HirImport) (id : ℕ) (i : HirImport)
    → Memᴰ i imports
    → i.def_id ≡ id
    → IsPython i.kind
    → any (λ i. i == id) (python_ids imports) ≡ true
python_ids_complete [] id i m e p = absurd (Memᴰ.not-nil m)
python_ids_complete (x ∷ imports) id i m e p = elim (Memᴰ.cases_cons m) [
  | inl s ↦
      let kind : is_python_import x ≡ true =
        subst (λ (y : HirImport). is_python_import y ≡ true) s (of_python i.kind p) in
      let found : (x.def_id == id) ≡ true =
        (==_iff x.def_id id).1 (subst (λ (y : HirImport). y.def_id ≡ id) s e) in
      ground (arith, kind, found)
  | inr rest ↦ ground (arith, python_ids_complete imports id i rest e p)
]
