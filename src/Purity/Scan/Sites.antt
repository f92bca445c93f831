-- ===== src/Purity/Scan/Sites.antt =====
-- The scan of a body against a description of the expressions that have no effect of their own.
use text.Mathlib.Text.{◌==◌ as str_eq}
use asatsuyu.Base.{
  ℕ, ◌≡◌, Bool, true, false, not, ◌&&◌, Option, none, some, arith, Option-cases, inl, inr,
}
use asatsuyu.Syntax.Span.{Span}
use asatsuyu.Hir.{
  HirExpr, HirExprs, HirExprOption, HirMatchArms, HirFnDef, DefKind, literal, var, block, call,
  binary_op, unary_op, if_expr, match_expr, let_expr, assign, lambda, field_access, try_expr,
  await_expr, list, no_expr, then_expr, absent, present, no_arm, then_arm,
}
use asatsuyu.Purity.{boundary, async, is_effectful}
use asatsuyu.Purity.Scan.{
  Scope, Scan, Position, anywhere, callee, is_python, root_def, visit, visit_all, visit_option,
  visit_arms, origin_of, classify_applied, classify_member, mark_access, mark, enter, start,
  entry_of,
}

-- Applying this definition is no effect: a function (its effects are its own), a constructor, a type
-- or a builtin other than `println`.
abbrev pub calm_applied : Scope → ℕ → Bool
calm_applied sc id = elim (sc.symbol_table id).kind [
  | DefKind.function ↦ true
  | DefKind.builtin ↦ not (str_eq "println" (sc.symbol_table id).name)
  | DefKind.constructor ↦ true
  | DefKind.type_name ↦ true
  | DefKind.parameter ↦ false
  | DefKind.local_binding ↦ false
  | DefKind.import ↦ false
]

-- Calling a member of this definition is no effect.
abbrev pub calm_member : Scope → ℕ → Bool
calm_member sc id = elim (sc.symbol_table id).kind [
  | DefKind.builtin ↦ true
  | DefKind.constructor ↦ true
  | DefKind.type_name ↦ true
  | _ ↦ false
]

abbrev pub calm_root : Scope → Option ℕ → Bool
calm_root sc none = true
calm_root sc (some root) = not (is_python sc root)

abbrev pub is_anywhere : Position → Bool
is_anywhere anywhere = true
is_anywhere (callee _) = false

-- No `try`, no `await`, no read of a Python import, and every callee is a name whose call or member
-- call is calm.
unfoldable mutual
  pub calm : Scope → Position → HirExpr → Bool
  calm sc anywhere (var _ _) = true
  calm sc (callee _) (var id _) = calm_applied sc id
  calm sc anywhere (field_access receiver _ _) =
      calm_root sc (root_def receiver) && calm sc anywhere receiver
  calm sc (callee _) (field_access receiver _ _) = elim (root_def receiver) [
    | some root ↦ calm_member sc root
    | none ↦ false
  ]
  calm sc at (literal _) = is_anywhere at
  calm sc at (call func args span) =
      is_anywhere at && calm sc (callee span) func && calm_all sc args
  calm sc at (try_expr _ _) = false
  calm sc at (await_expr _ _) = false
  calm sc at (block items _) = is_anywhere at && calm_all sc items
  calm sc at (list items _) = is_anywhere at && calm_all sc items
  calm sc at (binary_op _ lhs rhs _) =
      is_anywhere at && calm sc anywhere lhs && calm sc anywhere rhs
  calm sc at (unary_op _ e _) = is_anywhere at && calm sc anywhere e
  calm sc at (lambda _ _ body _) = is_anywhere at && calm sc anywhere body
  calm sc at (if_expr condition then_body else_body _) =
      is_anywhere at
      && calm sc anywhere condition
      && calm sc anywhere then_body
      && calm_option sc else_body
  calm sc at (match_expr subject arms _) =
      is_anywhere at && calm sc anywhere subject && calm_arms sc arms
  calm sc at (let_expr _ value _ _) = is_anywhere at && calm sc anywhere value
  calm sc at (assign _ value _ _) = is_anywhere at && calm sc anywhere value

  pub calm_all : Scope → HirExprs → Bool
  calm_all sc no_expr = true
  calm_all sc (then_expr e es) = calm sc anywhere e && calm_all sc es

  pub calm_option : Scope → HirExprOption → Bool
  calm_option sc absent = true
  calm_option sc (present e) = calm sc anywhere e

  pub calm_arms : Scope → HirMatchArms → Bool
  calm_arms sc no_arm = true
  calm_arms sc (then_arm _ guard body _ arms) =
      calm_option sc guard && calm sc anywhere body && calm_arms sc arms

-- The scan has recorded no effect, proven or assumed.
abbrev pub quiet : Scan → Bool
quiet s = elim (origin_of s) [ none ↦ true | some _ ↦ false ]

quiet-applied :
    (sc : Scope) (id : ℕ) (span : Span) (s : Scan)
    → quiet (classify_applied sc id span s) ≡ (quiet s && calm_applied sc id)
quiet-applied sc id span s = ground arith

quiet-member :
    (sc : Scope) (id : ℕ) (span : Span) (s : Scan)
    → quiet (classify_member sc id span s) ≡ (quiet s && calm_member sc id)
quiet-member sc id span s = ground arith

quiet-access :
    (sc : Scope) (root : Option ℕ) (span : Span) (s : Scan)
    → quiet (mark_access sc root span s) ≡ (quiet s && calm_root sc root)
quiet-access sc none span s = ground arith
quiet-access sc (some root) span s = ground arith

abbrev Quiets : (Scan → Scan) → Bool → Type 0
Quiets f b = (s : Scan) → quiet (f s) ≡ (quiet s && b)

mutual
  unfolding visit calm

  quiet-visit : (sc : Scope) (at : Position) (e : HirExpr) → Quiets (visit sc at e) (calm sc at e)
  quiet-visit sc anywhere (var id span) s = ground arith
  quiet-visit sc (callee span) (var id _) s = quiet-applied sc id span s
  quiet-visit sc anywhere (field_access receiver name span) s = ground (
    arith,
    quiet-visit sc anywhere receiver (mark_access sc (root_def receiver) span s),
    quiet-access sc (root_def receiver) span s,
  )
  quiet-visit sc (callee span) (field_access receiver name inner) s =
      elim (Option-cases (root_def receiver)) [
        | inl e ↦
            rw (e, visit, calm, quiet)
              (ground (arith, quiet-visit sc anywhere receiver (enter (callee span) s)))
        | inr (root, e) ↦ ground (arith, e, quiet-member sc root span s)
      ]
  quiet-visit sc at (literal l) s = ground arith
  quiet-visit sc at (call func args span) s = ground (
    arith,
    quiet-visit sc (callee span) func (enter at s),
    quiet-visit_all sc args (visit sc (callee span) func (enter at s)),
  )
  quiet-visit sc at (try_expr e span) s =
      ground (arith, quiet-visit sc anywhere e (mark boundary span (enter at s)))
  quiet-visit sc at (await_expr e span) s =
      ground (arith, quiet-visit sc anywhere e (mark async span (enter at s)))
  quiet-visit sc at (block items span) s = ground (arith, quiet-visit_all sc items (enter at s))
  quiet-visit sc at (list items span) s = ground (arith, quiet-visit_all sc items (enter at s))
  quiet-visit sc at (binary_op op lhs rhs span) s = ground (
    arith,
    quiet-visit sc anywhere lhs (enter at s),
    quiet-visit sc anywhere rhs (visit sc anywhere lhs (enter at s)),
  )
  quiet-visit sc at (unary_op op e span) s = ground (arith, quiet-visit sc anywhere e (enter at s))
  quiet-visit sc at (lambda ps r body span) s =
      ground (arith, quiet-visit sc anywhere body (enter at s))
  quiet-visit sc at (if_expr c t f span) s = ground (
    arith,
    quiet-visit sc anywhere c (enter at s),
    quiet-visit sc anywhere t (visit sc anywhere c (enter at s)),
    quiet-visit_option sc f (visit sc anywhere t (visit sc anywhere c (enter at s))),
  )
  quiet-visit sc at (match_expr subject arms span) s = ground (
    arith,
    quiet-visit sc anywhere subject (enter at s),
    quiet-visit_arms sc arms (visit sc anywhere subject (enter at s)),
  )
  quiet-visit sc at (let_expr id value m span) s =
      ground (arith, quiet-visit sc anywhere value (enter at s))
  quiet-visit sc at (assign id value target span) s =
      ground (arith, quiet-visit sc anywhere value (enter at s))

  quiet-visit_all : (sc : Scope) (es : HirExprs) → Quiets (visit_all sc es) (calm_all sc es)
  quiet-visit_all sc no_expr s = ground arith
  quiet-visit_all sc (then_expr e es) s =
      ground (arith, quiet-visit sc anywhere e s, quiet-visit_all sc es (visit sc anywhere e s))

  quiet-visit_option :
      (sc : Scope) (e : HirExprOption) → Quiets (visit_option sc e) (calm_option sc e)
  quiet-visit_option sc absent s = ground arith
  quiet-visit_option sc (present e) s = quiet-visit sc anywhere e s

  quiet-visit_arms :
      (sc : Scope) (arms : HirMatchArms) → Quiets (visit_arms sc arms) (calm_arms sc arms)
  quiet-visit_arms sc no_arm s = ground arith
  quiet-visit_arms sc (then_arm pattern guard body span arms) s = ground (
    arith,
    quiet-visit_option sc guard s,
    quiet-visit sc anywhere body (visit_option sc guard s),
    quiet-visit_arms sc arms (visit sc anywhere body (visit_option sc guard s)),
  )

-- Before propagation a function is effectful exactly if it is `async` or its body is not calm.
pub effectful-entry_of :
    (sc : Scope) (f : HirFnDef)
    → is_effectful (entry_of sc f) ≡ not (not f.is_async && calm sc anywhere f.body)
unfolding entry_of
effectful-entry_of sc f = ground (arith, quiet-visit sc anywhere f.body (start f))
