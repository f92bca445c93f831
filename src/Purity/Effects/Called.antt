-- ===== src/Purity/Effects/Called.antt =====
-- The callees that the scan records are the functions that a body calls by name.
use mathlib.Core.Path.{subst}
use mathlib.Core.List.Memᴰ
use asatsuyu.Base.{
  ℕ, ◌≡◌, refl, ◌↔◌, ◌⊎◌, inl, inr, Option, none, some, [], ◌∷◌, ◌++◌, arith, Bool-cases,
}
use asatsuyu.Syntax.Span.{Span}
use asatsuyu.Hir.{
  HirExpr, HirExprs, HirExprOption, HirMatchArms, HirFnDef, HirModule, DefKind, literal, var, block,
  call, binary_op, unary_op, if_expr, match_expr, let_expr, assign, lambda, field_access, try_expr,
  await_expr, list, no_expr, then_expr, absent, present, no_arm, then_arm,
}
use asatsuyu.Purity.{boundary, async}
use asatsuyu.Purity.Scan.{
  Scope, Scan, Position, anywhere, callee, root_def, scope_of, is_python, visit, visit_all,
  visit_option, visit_arms, enter, mark, mark_access, classify_applied, classify_member,
  classify_import, scan_fn, start,
}
use asatsuyu.Purity.Effects.{HasRoot, Some, SomeOf, SomeIf, SomeArm, NamesFunction, CallOf}
use asatsuyu.Purity.Effects.Roots.{root_def-RootedAt, no_root}
use asatsuyu.Purity.Effects.Recorded.{HasIn, Has, has-snoc, nothing, chain, exchange, skip_two}

module _ (m : HirModule) (id : ℕ) where
  abbrev sc : Scope
  sc = scope_of m

  abbrev NamedAt : HirExpr → Position → Type 0
  NamedAt (var i s) (callee _) = (i ≡ id) × ((m.symbol_table i).kind ≡ DefKind.function)
  NamedAt (var i s) anywhere = ⊥
  NamedAt (literal _) _ = ⊥
  NamedAt _ _ = ⊥

  named_iff : (f : HirExpr) (s : Span) → NamedAt f (callee s) ↔ NamesFunction m id f
  named_iff (var i t) s = (λ h. h, λ h. h)
  named_iff (literal l) s = (λ h. h, λ h. h)
  named_iff _ s = (λ h. h, λ h. h)

  entered :
      {Z A : Type 0} (at : Position) (s : Scan) → Z ↔ (Has id (enter at s) ⊎ A) → Z ↔ (Has id s ⊎ A)
  entered anywhere s f = f
  entered (callee span) s f = f

  access :
      (root : Option ℕ) (span : Span) (s : Scan) → (mark_access sc root span s).callees ≡ s.callees
  access none span s = refl
  access (some root) span s = elim (Bool-cases (is_python sc root)) [
    | inl e ↦ ground (arith, e)
    | inr e ↦ ground (arith, e)
  ]

  imported : (i : ℕ) (span : Span) (s : Scan) → (classify_import sc i span s).callees ≡ s.callees
  imported i span s = elim (Bool-cases (is_python sc i)) [
    | inl e ↦ ground (arith, e)
    | inr e ↦ ground (arith, e)
  ]

  member : (i : ℕ) (span : Span) (s : Scan) → (classify_member sc i span s).callees ≡ s.callees
  member i span s = ground (arith, imported i span s)

  function-cases : (k : DefKind) → (k ≡ DefKind.function) ⊎ (¬ (k ≡ DefKind.function))
  function-cases DefKind.function = inl refl
  function-cases DefKind.parameter = inr (λ e. absurd (cc e))
  function-cases DefKind.local_binding = inr (λ e. absurd (cc e))
  function-cases DefKind.constructor = inr (λ e. absurd (cc e))
  function-cases DefKind.type_name = inr (λ e. absurd (cc e))
  function-cases DefKind.builtin = inr (λ e. absurd (cc e))
  function-cases DefKind.import = inr (λ e. absurd (cc e))

  of_function :
      (i : ℕ) (span : Span) (s : Scan)
      → (m.symbol_table i).kind ≡ DefKind.function
      → (classify_applied sc i span s).callees ≡ s.callees ++ (i, span) ∷ []
  of_function i span s e = ground (arith, e)

  of_other :
      (i : ℕ) (span : Span) (s : Scan)
      → ¬ ((m.symbol_table i).kind ≡ DefKind.function)
      → (classify_applied sc i span s).callees ≡ s.callees
  of_other i span s n = ground (arith, n, imported i span s)

  applied :
      (i : ℕ) (span : Span) (s : Scan)
      → Has id (classify_applied sc i span s)
        ↔ (Has id s ⊎ ((i ≡ id) × ((m.symbol_table i).kind ≡ DefKind.function)))
  applied i span s = elim (function-cases (m.symbol_table i).kind) [
    | inl e ↦
        rw (of_function i span s e)
          (exchange (λ same. (same, e), λ (same, _). same) (has-snoc id i span s.callees))
    | inr n ↦ rw (of_other i span s n) (nothing (λ (_, e). n e))
  ]

  call_parts :
      {B : Type 0} (func : HirExpr) (t : Span)
      → ((NamedAt func (callee t) ⊎ Some (CallOf m id) (callee t) func) ⊎ B)
        ↔ (⊥ ⊎ (NamesFunction m id func ⊎ (Some (CallOf m id) (callee t) func ⊎ B)))
  call_parts func t = (
    λ s. elim s [
      | inl h ↦ elim h [ inl n ↦ inr (inl ((named_iff func t).0 n)) | inr p ↦ inr (inr (inl p)) ]
      | inr b ↦ inr (inr (inr b))
    ],
    λ s. elim s [
      | inl x ↦ absurd x
      | inr h ↦ elim h [
        | inl n ↦ inl (inl ((named_iff func t).1 n))
        | inr r ↦ elim r [ inl p ↦ inl (inr p) | inr b ↦ inr b ]
      ]
    ],
  )

  abbrev Calls : Position → HirExpr → Scan → Type 0
  Calls at e s = Has id (visit sc at e s) ↔ (Has id s ⊎ (NamedAt e at ⊎ Some (CallOf m id) at e))

  not_named : (e : HirExpr) → ¬ NamedAt e anywhere
  not_named (var i t) h = h
  not_named (literal l) h = h
  not_named _ h = h

  plain :
      (e : HirExpr) (s : Scan)
      → Calls anywhere e s
      → Has id (visit sc anywhere e s) ↔ (Has id s ⊎ Some (CallOf m id) anywhere e)
  plain e s f = exchange (λ h. elim h [ inl x ↦ absurd (not_named e x) | inr y ↦ y ], λ y. inr y) f

  -- A call of a member, where `r` is the scan of what it is a member of.
  member_call :
      (receiver : HirExpr) (span : Span) (s : Scan) (A : Type 0) (r : Scan)
      → Has id r ↔ (Has id s ⊎ A)
      → (o : Option ℕ) → root_def receiver ≡ o
      → Has id (elim o [ some root ↦ classify_member sc root span s | none ↦ r ])
        ↔ (Has id s ⊎ (⊥ ⊎ ((¬ HasRoot receiver) × A)))
  member_call receiver span s A r f none e =
      exchange (λ h. inr (no_root receiver e, h), λ h. elim h [ inl x ↦ absurd x | inr y ↦ y.1 ]) f
  member_call receiver span s A r f (some root) e =
      let has : HasRoot receiver = (root, root_def-RootedAt receiver root e) in
      rw (member root span s) (nothing (λ h. elim h [ inl x ↦ x | inr y ↦ y.0 has ]))

  inside :
      {Z A : Type 0} (at : Position) (s : Scan)
      → Z ↔ (Has id (enter at s) ⊎ A)
      → Z ↔ (Has id s ⊎ (⊥ ⊎ (⊥ ⊎ A)))
  inside at s f = exchange skip_two (entered at s f)

  mutual
    unfolding visit

    pub visit_iff : (at : Position) (e : HirExpr) (s : Scan) → Calls at e s
    visit_iff anywhere (var i t) s = nothing (λ h. elim h [ inl x ↦ x | inr y ↦ y ])
    visit_iff (callee span) (var i t) s =
        exchange (λ h. inl h, λ h. elim h [ inl x ↦ x | inr y ↦ absurd y ]) (applied i span s)
    visit_iff anywhere (field_access receiver f t) s = exchange skip_two (
        subst
          (λ cs.
            Has id (visit sc anywhere receiver (mark_access sc (root_def receiver) t s))
            ↔ (HasIn id cs ⊎ Some (CallOf m id) anywhere receiver))
          (access (root_def receiver) t s)
          (plain receiver (mark_access sc (root_def receiver) t s)
            (visit_iff anywhere receiver (mark_access sc (root_def receiver) t s))))
    visit_iff (callee span) (field_access receiver f t) s =
        member_call receiver span s (Some (CallOf m id) anywhere receiver)
          (visit sc anywhere receiver (enter (callee span) s))
          (plain receiver (enter (callee span) s)
            (visit_iff anywhere receiver (enter (callee span) s)))
          (root_def receiver) refl
    visit_iff at (literal l) s = entered at s (nothing (λ h. elim h [ inl x ↦ x | inr y ↦ y ]))
    visit_iff at (call func args t) s = entered at s (
        exchange (call_parts func t) (
          chain (visit_iff (callee t) func (enter at s))
            (visit_all_iff args (visit sc (callee t) func (enter at s)))))
    visit_iff at (try_expr e t) s = inside at s (
        plain e (mark boundary t (enter at s))
          (visit_iff anywhere e (mark boundary t (enter at s))))
    visit_iff at (await_expr e t) s =
        inside at s
          (plain e (mark async t (enter at s)) (visit_iff anywhere e (mark async t (enter at s))))
    visit_iff at (block items t) s = inside at s (visit_all_iff items (enter at s))
    visit_iff at (list items t) s = inside at s (visit_all_iff items (enter at s))
    visit_iff at (binary_op op l r t) s = inside at s (
        chain (plain l (enter at s) (visit_iff anywhere l (enter at s))) (
          plain r (visit sc anywhere l (enter at s))
            (visit_iff anywhere r (visit sc anywhere l (enter at s)))))
    visit_iff at (unary_op op e t) s =
        inside at s (plain e (enter at s) (visit_iff anywhere e (enter at s)))
    visit_iff at (lambda ps r body t) s =
        inside at s (plain body (enter at s) (visit_iff anywhere body (enter at s)))
    visit_iff at (if_expr c t f x) s = inside at s (
        chain (plain c (enter at s) (visit_iff anywhere c (enter at s))) (
          chain
            (plain t (visit sc anywhere c (enter at s))
              (visit_iff anywhere t (visit sc anywhere c (enter at s))))
            (visit_option_iff f (visit sc anywhere t (visit sc anywhere c (enter at s))))))
    visit_iff at (match_expr e arms t) s = inside at s (
        chain (plain e (enter at s) (visit_iff anywhere e (enter at s)))
          (calls_arms_iff arms (visit sc anywhere e (enter at s))))
    visit_iff at (let_expr i e x t) s =
        inside at s (plain e (enter at s) (visit_iff anywhere e (enter at s)))
    visit_iff at (assign i e x t) s =
        inside at s (plain e (enter at s) (visit_iff anywhere e (enter at s)))

    visit_all_iff :
        (es : HirExprs) (s : Scan)
        → Has id (visit_all sc es s) ↔ (Has id s ⊎ SomeOf (CallOf m id) es)
    visit_all_iff no_expr s = nothing (λ x. x)
    visit_all_iff (then_expr e es) s =
        chain (plain e s (visit_iff anywhere e s)) (visit_all_iff es (visit sc anywhere e s))

    visit_option_iff :
        (e : HirExprOption) (s : Scan)
        → Has id (visit_option sc e s) ↔ (Has id s ⊎ SomeIf (CallOf m id) e)
    visit_option_iff absent s = nothing (λ x. x)
    visit_option_iff (present e) s = plain e s (visit_iff anywhere e s)

    calls_arms_iff :
        (arms : HirMatchArms) (s : Scan)
        → Has id (visit_arms sc arms s) ↔ (Has id s ⊎ SomeArm (CallOf m id) arms)
    calls_arms_iff no_arm s = nothing (λ x. x)
    calls_arms_iff (then_arm p guard body t arms) s = chain (visit_option_iff guard s) (
        chain
          (plain body (visit_option sc guard s) (visit_iff anywhere body (visit_option sc guard s)))
          (calls_arms_iff arms (visit sc anywhere body (visit_option sc guard s))))

  -- The scan of a function records exactly the functions that its body calls by name.
  pub callees_iff : (f : HirFnDef) → Has id (scan_fn sc f) ↔ Some (CallOf m id) anywhere f.body
  unfolding scan_fn
  callees_iff f =
      let all = plain f.body (start f) (visit_iff anywhere f.body (start f)) in
      (λ h. elim (all.0 h) [ inl (_, x) ↦ absurd (Memᴰ.not-nil x) | inr y ↦ y ], λ y. all.1 (inr y))
