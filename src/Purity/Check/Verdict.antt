-- ===== src/Purity/Check/Verdict.antt =====
-- What the check of `pure` declarations accepts.
use asatsuyu.Base.{
  ℕ, zero, suc, ◌≡◌, refl, ◌↔◌, Bool, true, false, not, ◌&&◌, ◌||◌, Option, none, some, List, [],
  ◌∷◌, ◌++◌, any, find, ◌==◌, ==_iff, ==_refl, get_elem?, arith, Option-cases, Bool-cases, inl, inr,
}
use asatsuyu.Hir.{HirModule, HirFnDef}
use asatsuyu.Purity.{FunctionPurity}
use asatsuyu.Purity.Propagate.{analyze, purity_of}
use asatsuyu.Purity.Propagate.Relax.{effectful_at}
use asatsuyu.Purity.Report.{MayPerform, in_body, analyze_lem}
use asatsuyu.Purity.Check.{
  PurityError, is_effectful_in, check_fn, check_fns, check, ends_assumed, reaches_effect,
}
use asatsuyu.Purity.Check.Path.{effect_path_total}
use asatsuyu.Purity.Check.Ids.{ids, fn_ids, ids-analyze}

-- The function is declared `pure`.
abbrev pub is_declared_pure : HirFnDef → Bool
is_declared_pure f = elim f.pure_span [ some _ ↦ true | none ↦ false ]

-- No two entries of the list are equal, as for the definitions that an arena hands out.
abbrev pub Distinct : List ℕ → Type 0
Distinct [] = Unit
Distinct (x ∷ xs) = (any (λ y. x == y) xs ≡ false) × Distinct xs

any-get :
    (x : ℕ) (xs : List ℕ) (i : ℕ) → any (λ y. x == y) xs ≡ false → (get_elem? xs i ≡ some x) → ⊥
any-get x [] i h e = ground arith
any-get x (y ∷ ys) zero h e = ground (arith, ==_refl x)
any-get x (y ∷ ys) (suc i) h e = any-get x ys i (ground arith) e

is_effectful_in-at :
    (report : List FunctionPurity) (v id : ℕ)
    → Distinct (ids report)
    → get_elem? (ids report) v ≡ some id
    → is_effectful_in report id ≡ effectful_at report v
unfolding purity_of find
is_effectful_in-at [] v id d e = ground arith
is_effectful_in-at (f ∷ fs) zero id d e = ground (arith, e, ==_refl id)
is_effectful_in-at (f ∷ fs) (suc v) id d e = elim (Bool-cases (f.def_id == id)) [
  | inl same ↦ absurd (any-get f.def_id (ids fs) v d.0 (rw ((==_iff f.def_id id).0 same) e))
  | inr other ↦ ground (arith, other, is_effectful_in-at fs v id d.1 e)
]

get-fn_ids :
    (fs : List HirFnDef) (v : ℕ) (f : HirFnDef)
    → get_elem? fs v ≡ some f
    → get_elem? (fn_ids fs) v ≡ some f.def_id
get-fn_ids [] v f h = ground arith
get-fn_ids (g ∷ fs) zero f h = ground arith
get-fn_ids (g ∷ fs) (suc v) f h = get-fn_ids fs v f h

-- The check gives diagnostics for the function.
abbrev rejected : List FunctionPurity → HirFnDef → Bool
rejected report f = is_declared_pure f && (f.is_async || is_effectful_in report f.def_id)

abbrev none_left : List PurityError → Bool
none_left [] = true
none_left (_ ∷ _) = false

Says : Option (List PurityError) → Bool → Type 0
Says o b = (errors : List PurityError) × (o ≡ some errors) × (none_left errors ≡ not b)

check_fn-Says :
    (m : HirModule) (report : List FunctionPurity) (f : HirFnDef)
    → Says (check_fn m report f) (rejected report f)
unfolding check_fn Says
check_fn-Says m report f = elim (Option-cases f.pure_span) [
  | inl e ↦ ([], rw (e, check_fn) refl, ground (arith, e))
  | inr (span, e) ↦ elim (Bool-cases f.is_async) [
    | inl a ↦ (
      PurityError.pure_and_async (m.symbol_table f.def_id).name span ∷ [],
      rw (e, a, check_fn) refl,
      ground (arith, e, a),
    )
    | inr a ↦ elim (Bool-cases (is_effectful_in report f.def_id)) [
      | inr c ↦ ([], rw (e, a, c, check_fn) refl, ground (arith, e, a, c))
      | inl c ↦
          let (path, p) = effect_path_total report f.def_id in
          (
            reaches_effect (m.symbol_table f.def_id).name span path (ends_assumed path) ∷ [],
            rw (e, a, c, p, check_fn) refl,
            ground (arith, e, a, c),
          )
    ]
  ]
]

none_left-append :
    (xs ys : List PurityError) → none_left (xs ++ ys) ≡ (none_left xs && none_left ys)
none_left-append [] ys = refl
none_left-append (x ∷ xs) ys = refl

check_fns-Says :
    (m : HirModule) (report : List FunctionPurity) (fs : List HirFnDef)
    → Says (check_fns m report fs) (any (rejected report) fs)
unfolding check_fns Says
check_fns-Says m report [] = ([], refl, refl)
check_fns-Says m report (f ∷ fs) =
    let (first, e, a) = check_fn-Says m report f in
    let (later, p, b) = check_fns-Says m report fs in
    (first ++ later, rw (e, p, check_fns) refl, ground (arith, a, b, none_left-append first later))

any-false-at :
    (p : HirFnDef → Bool) (fs : List HirFnDef) (v : ℕ) (f : HirFnDef)
    → any p fs ≡ false
    → get_elem? fs v ≡ some f
    → p f ≡ false
any-false-at p [] v f h e = absurd (ground (arith, e))
any-false-at p (g ∷ fs) zero f h e = ground (arith, e, h)
any-false-at p (g ∷ fs) (suc v) f h e = any-false-at p fs v f (ground (arith, h)) e

any-false :
    (p : HirFnDef → Bool) (fs : List HirFnDef)
    → ((v : ℕ) (f : HirFnDef) → get_elem? fs v ≡ some f → p f ≡ false)
    → any p fs ≡ false
any-false p [] h = refl
any-false p (g ∷ fs) h = ground (arith, h 0 g refl, any-false p fs (λ v f e. h (suc v) f e))

-- No function that is declared `pure` is `async`, has an effect in its body, or calls by name, over
-- any number of calls, one that is or has.
abbrev pub PureAsDeclared : HirModule → Type 0
PureAsDeclared m =
    (v : ℕ) (f : HirFnDef)
    → get_elem? m.functions v ≡ some f
    → is_declared_pure f ≡ true
    → ¬ MayPerform m v

module _ (m : HirModule) (report : List FunctionPurity) (distinct : Distinct (fn_ids m.functions))
    (made : analyze m ≡ some report) where
  entry_at :
      (v : ℕ) (f : HirFnDef)
      → get_elem? m.functions v ≡ some f
      → is_effectful_in report f.def_id ≡ effectful_at report v
  entry_at v f e =
      let same : ids report ≡ fn_ids m.functions = ids-analyze m report made in
      is_effectful_in-at report v f.def_id (rw same distinct)
        (rw same (get-fn_ids m.functions v f e))

  effectful_iff : (v : ℕ) → (effectful_at report v ≡ true) ↔ MayPerform m v
  effectful_iff v =
      let (other, e, size, iff) = analyze_lem m in
      let same : report ≡ other = cc (made, e) in
      (λ h. (iff v).0 (rw (← same) h), λ p. rw same ((iff v).1 p))

  accepts : any (rejected report) m.functions ≡ false → PureAsDeclared m
  accepts h v f e d may = ground (
    arith,
    any-false-at (rejected report) m.functions v f h e,
    entry_at v f e,
    (effectful_iff v).1 may,
  )

  accepted : PureAsDeclared m → any (rejected report) m.functions ≡ false
  accepted all = any-false (rejected report) m.functions one
    where
      one : (v : ℕ) (f : HirFnDef) → get_elem? m.functions v ≡ some f → rejected report f ≡ false
      one v f e = elim (Bool-cases (rejected report f)) [
        | inr fine ↦ fine
        | inl refused ↦ elim (Bool-cases f.is_async) [
          | inl a ↦ absurd (all v f e (ground arith) (in_body f e (inl a)))
          | inr a ↦ absurd (
              all v f e (ground arith)
                ((effectful_iff v).0 (ground (arith, a, refused, entry_at v f e))))
        ]
      ]

-- For a module whose functions have distinct definitions, the check of the report of `analyze`
-- ends, and it gives no diagnostic exactly if no function that is declared `pure` is `async`, has
-- in its body an expression that counts as an effect, or calls by name, over any number of calls,
-- a function of the module that is or has. Functions that are passed as values are not followed.
pub check_lem :
    (m : HirModule) (report : List FunctionPurity)
    → Distinct (fn_ids m.functions)
    → analyze m ≡ some report
    → (errors : List PurityError) × (check m report ≡ some errors)
      × ((errors ≡ []) ↔ PureAsDeclared m)
unfolding check Says
check_lem m report d made =
    let (errors, e, b) = check_fns-Says m report m.functions in
    (
      errors,
      e,
      (
        λ h. accepts m report d made (ground (arith, b, h)),
        λ h. empty errors (ground (arith, b, accepted m report d made h)),
      ),
    )
  where
    empty : (errors : List PurityError) → none_left errors ≡ true → errors ≡ []
    empty [] h = refl
    empty (x ∷ xs) h = absurd (ground arith)
