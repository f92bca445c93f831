-- ===== src/Purity/Effects/Direct.antt =====
-- The calm bodies of the scan are those without an effect.
use text.Mathlib.Text.{◌==◌ as str_eq}
use text.Mathlib.TextEquality.{eq_iff}
use mathlib.Core.Path.{subst}
use asatsuyu.Base.{
  ℕ, ◌≡◌, refl, ◌↔◌, ◌⊎◌, inl, inr, Bool, true, false, not, ◌&&◌, none, some, String, arith,
  Option-cases,
}
use asatsuyu.Hir.{
  HirExpr, HirExprs, HirExprOption, HirMatchArms, HirModule, DefKind, literal, var, block, call,
  binary_op, unary_op, if_expr, match_expr, let_expr, assign, lambda, field_access, try_expr,
  await_expr, list, no_expr, then_expr, absent, present, no_arm, then_arm,
}
use asatsuyu.Purity.Scan.{Position, anywhere, callee, root_def, scope_of}
use asatsuyu.Purity.Scan.Sites.{
  calm, calm_all, calm_option, calm_arms, calm_member, calm_root, is_anywhere,
}
use asatsuyu.Purity.Effects.Roots.{
  root_def-RootedAt, RootedAt-root_def, no_root, python_ids_sound, python_ids_complete,
}
use asatsuyu.Purity.Effects.{
  RootedAt, HasRoot, Some, SomeOf, SomeIf, SomeArm, PythonImport, Applied, MemberApplied,
  CalleeEffect, Effect,
}

both :
    {a b : Bool} {A B : Type 0} → (a ≡ false) ↔ A → (b ≡ false) ↔ B → ((a && b) ≡ false) ↔ (A ⊎ B)
both {a = false} f g = (λ _. inl (f.0 refl), λ _. refl)
both {a = true} f g =
    (λ h. inr (g.0 h), λ s. elim s [ inl x ↦ absurd (cc (f.1 x)) | inr y ↦ g.1 y ])

below : {a : Bool} {A : Type 0} → (a ≡ false) ↔ A → (a ≡ false) ↔ (⊥ ⊎ A)
below f = (λ h. inr (f.0 h), λ s. elim s [ inl x ↦ absurd x | inr y ↦ f.1 y ])

and_assoc : (a b c : Bool) → ((a && b) && c) ≡ (a && (b && c))
and_assoc true b c = refl
and_assoc false b c = refl

never : {A : Type 0} → (¬ A) → (true ≡ false) ↔ A
never n = (λ h. absurd (cc h), λ a. absurd (n a))

module _ (m : HirModule) where
  -- What is added where the expression is a callee.
  abbrev AtCallee : Position → HirExpr → Type 0
  AtCallee anywhere e = ⊥
  AtCallee (callee _) e = CalleeEffect m e

  -- An expression that is no name and no member of one.
  computed :
      {b : Bool} {B : Type 0} (at : Position) (e : HirExpr)
      → CalleeEffect m e
      → (b ≡ false) ↔ B
      → ((is_anywhere at && b) ≡ false) ↔ (AtCallee at e ⊎ (⊥ ⊎ B))
  computed anywhere e c f = below (below f)
  computed (callee _) e c f = (λ _. inl c, λ _. refl)

  calm_root_iff :
      (r : HirExpr)
      → (calm_root (scope_of m) (root_def r) ≡ false)
        ↔ ((id : ℕ) × RootedAt r id × PythonImport m id)
  calm_root_iff r = elim (Option-cases (root_def r)) [
    | inl e ↦ rw e (never (λ (id, h, _). no_root r e (id, h)))
    | inr (root, e) ↦ rw e (
      λ h.
          let (i, mem, same, p) = python_ids_sound m.imports root (ground (arith, h)) in
          (root, root_def-RootedAt r root e, (i, mem, same, p)),
      λ (id, h, (i, mem, same, p)).
          let root_is : root ≡ id = let found = RootedAt-root_def r id h in cc (e, found) in
          ground (arith, python_ids_complete m.imports root i mem (rw root_is same) p),
    )
  ]

  by_kind_iff :
      (kind : DefKind) (name : String)
      → (elim kind [
        | DefKind.function ↦ true
        | DefKind.builtin ↦ not (str_eq "println" name)
        | DefKind.constructor ↦ true
        | DefKind.type_name ↦ true
        | DefKind.parameter ↦ false
        | DefKind.local_binding ↦ false
        | DefKind.import ↦ false
      ]
          ≡ false)
        ↔ Applied kind name
  by_kind_iff DefKind.function name = never (λ x. x)
  by_kind_iff DefKind.builtin name = (
    λ h. (eq_iff "println" name).0 (ground (arith, h)),
    λ e. let same = (eq_iff "println" name).1 e in ground (arith, same),
  )
  by_kind_iff DefKind.constructor name = never (λ x. x)
  by_kind_iff DefKind.type_name name = never (λ x. x)
  by_kind_iff DefKind.parameter name = (λ _. tt, λ _. refl)
  by_kind_iff DefKind.local_binding name = (λ _. tt, λ _. refl)
  by_kind_iff DefKind.import name = (λ _. tt, λ _. refl)

  calm_member_iff :
      (id : ℕ) → (calm_member (scope_of m) id ≡ false) ↔ MemberApplied (m.symbol_table id).kind
  calm_member_iff id = of_kind (m.symbol_table id).kind
    where
      of_kind :
          (kind : DefKind)
          → (elim kind [
            | DefKind.builtin ↦ true
            | DefKind.constructor ↦ true
            | DefKind.type_name ↦ true
            | _ ↦ false
          ]
              ≡ false)
            ↔ MemberApplied kind
      of_kind DefKind.function = (λ _. tt, λ _. refl)
      of_kind DefKind.builtin = never (λ x. x)
      of_kind DefKind.constructor = never (λ x. x)
      of_kind DefKind.type_name = never (λ x. x)
      of_kind DefKind.parameter = (λ _. tt, λ _. refl)
      of_kind DefKind.local_binding = (λ _. tt, λ _. refl)
      of_kind DefKind.import = (λ _. tt, λ _. refl)

  right : {a : Bool} {A : Type 0} → (a ≡ false) ↔ A → (a ≡ false) ↔ (A ⊎ ⊥)
  right f = (λ h. inl (f.0 h), λ s. elim s [ inl x ↦ f.1 x | inr y ↦ absurd y ])

  member_callee :
      (receiver : HirExpr) (B : Type 0)
      → (elim (root_def receiver) [ some root ↦ calm_member (scope_of m) root | none ↦ false ]
          ≡ false)
        ↔ (((¬ HasRoot receiver)
              ⊎ ((id : ℕ) × RootedAt receiver id × MemberApplied (m.symbol_table id).kind))
            ⊎ ((¬ HasRoot receiver) × B))
  member_callee receiver B = elim (Option-cases (root_def receiver)) [
    | inl e ↦ rw e (λ _. inl (inl (no_root receiver e)), λ _. refl)
    | inr (root, e) ↦
        let has : HasRoot receiver = (root, root_def-RootedAt receiver root e) in
        rw e (
          λ h. inl (inr (root, has.1, (calm_member_iff root).0 h)),
          λ s. elim s [
            | inr (n, _) ↦ absurd (n has)
            | inl t ↦ elim t [
              | inl n ↦ absurd (n has)
              | inr (id, r, applied) ↦
                  let found = RootedAt-root_def receiver id r in
                  let same : id ≡ root = cc (e, found) in
                  (calm_member_iff root).1
                    (subst (λ i. MemberApplied (m.symbol_table i).kind) same applied)
            ]
          ],
        )
  ]

  regroup : {a : Bool} {A B C : Type 0} → (a ≡ false) ↔ ((A ⊎ B) ⊎ C) → (a ≡ false) ↔ (A ⊎ (B ⊎ C))
  regroup f = (
    λ h. elim (f.0 h) [
      | inl s ↦ elim s [ inl x ↦ inl x | inr y ↦ inr (inl y) ]
      | inr z ↦ inr (inr z)
    ],
    λ s.
        f.1
          (elim s [ inl x ↦ inl (inl x) | inr t ↦ elim t [ inl y ↦ inl (inr y) | inr z ↦ inr z ] ]),
  )

  at_anywhere :
      {b : Bool} (e : HirExpr)
      → (b ≡ false) ↔ (⊥ ⊎ Some (Effect m) anywhere e)
      → (b ≡ false) ↔ Some (Effect m) anywhere e
  at_anywhere e f = (λ h. elim (f.0 h) [ inl x ↦ absurd x | inr y ↦ y ], λ y. f.1 (inr y))

  computed_leaf :
      (at : Position) (e : HirExpr)
      → CalleeEffect m e
      → (is_anywhere at ≡ false) ↔ (AtCallee at e ⊎ ⊥)
  computed_leaf anywhere e c = never (λ t. elim t [ inl x ↦ x | inr y ↦ y ])
  computed_leaf (callee _) e c = (λ _. inl c, λ _. refl)

  -- A call, where it is an effect also as a callee.
  call_step :
      {b : Bool} {B : Type 0} (at : Position) (e : HirExpr)
      → CalleeEffect m e
      → (b ≡ false) ↔ B
      → ((is_anywhere at && b) ≡ false) ↔ (AtCallee at e ⊎ B)
  call_step anywhere e c f = below f
  call_step (callee _) e c f = (λ _. inl c, λ _. refl)

  mutual
    unfolding calm

    pub calm_iff :
        (at : Position) (e : HirExpr)
        → (calm (scope_of m) at e ≡ false) ↔ (AtCallee at e ⊎ Some (Effect m) at e)
    calm_iff anywhere (var id s) = never (λ t. elim t [ inl x ↦ x | inr y ↦ y ])
    calm_iff (callee _) (var id s) =
        right (by_kind_iff (m.symbol_table id).kind (m.symbol_table id).name)
    calm_iff anywhere (field_access receiver f s) =
        below (both (calm_root_iff receiver) (at_anywhere receiver (calm_iff anywhere receiver)))
    calm_iff (callee _) (field_access receiver f s) =
        member_callee receiver (Some (Effect m) anywhere receiver)
    calm_iff at (literal l) = computed_leaf at (literal l) tt
    calm_iff at (call func args s) =
        rw
          (and_assoc (is_anywhere at) (calm (scope_of m) (callee s) func)
            (calm_all (scope_of m) args))
          (call_step at (call func args s) tt
            (regroup (both (calm_iff (callee s) func) (calm_all_iff args))))
    calm_iff at (try_expr e s) = (λ _. inr (inl tt), λ _. refl)
    calm_iff at (await_expr e s) = (λ _. inr (inl tt), λ _. refl)
    calm_iff at (block items s) = computed at (block items s) tt (calm_all_iff items)
    calm_iff at (list items s) = computed at (list items s) tt (calm_all_iff items)
    calm_iff at (binary_op op l r s) =
        rw
          (and_assoc (is_anywhere at) (calm (scope_of m) anywhere l) (calm (scope_of m) anywhere r))
          (computed at (binary_op op l r s) tt
            (both (at_anywhere l (calm_iff anywhere l)) (at_anywhere r (calm_iff anywhere r))))
    calm_iff at (unary_op op e s) =
        computed at (unary_op op e s) tt (at_anywhere e (calm_iff anywhere e))
    calm_iff at (lambda ps r body s) =
        computed at (lambda ps r body s) tt (at_anywhere body (calm_iff anywhere body))
    calm_iff at (if_expr c t f s) =
        rw
          (
            and_assoc (is_anywhere at && calm (scope_of m) anywhere c)
                (calm (scope_of m) anywhere t) (calm_option (scope_of m) f),
            and_assoc (is_anywhere at) (calm (scope_of m) anywhere c)
                (calm (scope_of m) anywhere t && calm_option (scope_of m) f),
          )
          (computed at (if_expr c t f s) tt (
            both (at_anywhere c (calm_iff anywhere c))
              (both (at_anywhere t (calm_iff anywhere t)) (calm_option_iff f))))
    calm_iff at (match_expr e arms s) =
        rw (and_assoc (is_anywhere at) (calm (scope_of m) anywhere e) (calm_arms (scope_of m) arms))
          (computed at (match_expr e arms s) tt
            (both (at_anywhere e (calm_iff anywhere e)) (calm_arms_iff arms)))
    calm_iff at (let_expr id e x s) =
        computed at (let_expr id e x s) tt (at_anywhere e (calm_iff anywhere e))
    calm_iff at (assign id e x s) =
        computed at (assign id e x s) tt (at_anywhere e (calm_iff anywhere e))

    calm_all_iff : (es : HirExprs) → (calm_all (scope_of m) es ≡ false) ↔ SomeOf (Effect m) es
    calm_all_iff no_expr = never (λ x. x)
    calm_all_iff (then_expr e es) = both (at_anywhere e (calm_iff anywhere e)) (calm_all_iff es)

    calm_option_iff :
        (e : HirExprOption) → (calm_option (scope_of m) e ≡ false) ↔ SomeIf (Effect m) e
    calm_option_iff absent = never (λ x. x)
    calm_option_iff (present e) = at_anywhere e (calm_iff anywhere e)

    calm_arms_iff :
        (arms : HirMatchArms) → (calm_arms (scope_of m) arms ≡ false) ↔ SomeArm (Effect m) arms
    calm_arms_iff no_arm = never (λ x. x)
    calm_arms_iff (then_arm p guard body s arms) =
        rw
          (and_assoc (calm_option (scope_of m) guard) (calm (scope_of m) anywhere body)
            (calm_arms (scope_of m) arms))
          (both (calm_option_iff guard)
            (both (at_anywhere body (calm_iff anywhere body)) (calm_arms_iff arms)))

  -- A body has no calm scan exactly if it has an effect.
  pub body_iff : (e : HirExpr) → (calm (scope_of m) anywhere e ≡ false) ↔ Some (Effect m) anywhere e
  body_iff e = at_anywhere e (calm_iff anywhere e)
