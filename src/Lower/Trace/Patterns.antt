-- ===== src/Lower/Trace/Patterns.antt =====
-- What lower.rs makes of types, parameters and patterns reads back as what it was given.
use asatsuyu.Base.{◌≡◌, refl, false, Option, none, some, List, [], ◌∷◌}
use asatsuyu.Hir.{DefKind, DefData}
use asatsuyu.Ast.{Ident, TypeExpr, TypeExprs, Param, Pattern, Patterns}
use asatsuyu.Lower.Context.{Scope, LowerCtx}
use asatsuyu.Lower.Exprs.{
  lower_type_expr, lower_type_exprs, lower_type_option, lower_params, lower_rest, lower_pattern,
  lower_patterns, unresolved_constructor,
}
use asatsuyu.Lower.Desugar.{
  plain_type, plain_types, plain_type_option, plain_params, plain_pattern, plain_patterns,
}
use asatsuyu.Lower.ReadBack.{
  read_type, read_types, read_type_option, read_params, read_rest, read_pattern, read_patterns,
  name-ident,
}
use asatsuyu.Lower.Trace.{Ready, Kept-here, Good, returns, seq, Later, Later-Kept}
use asatsuyu.Lower.Trace.Bindings.{bind_local-Good, resolve_or_report-Good}

mutual
  unfolding read_type lower_type_expr plain_type

  pub read-lower_type : (t : TypeExpr) → read_type (lower_type_expr t) ≡ plain_type t
  read-lower_type (TypeExpr.named name args span) = rw (read-lower_types args) refl

  read-lower_types : (ts : TypeExprs) → read_types (lower_type_exprs ts) ≡ plain_types ts
  read-lower_types TypeExprs.no_type = refl
  read-lower_types (TypeExprs.then_type t ts) = rw (read-lower_type t, read-lower_types ts) refl

pub read-lower_type_option :
    (o : Option TypeExpr) → read_type_option (lower_type_option o) ≡ plain_type_option o
read-lower_type_option none = refl
read-lower_type_option (some t) = rw (read-lower_type t) refl

-- In every later arena a lowered value reads back as the given one.
abbrev pub Reads : {H A : Type 0} → (List DefData → H → Option A) → A → H → LowerCtx → Type 0
Reads read a h = Later (λ t. read t h ≡ some a)

pub lower_params-Good :
    (ps : List Param) (c : LowerCtx) (outer : List Scope)
    → Ready outer c
    → Good c outer (Reads read_params (plain_params ps)) (lower_params ps c)
unfolding lower_params read_params
lower_params-Good [] c outer r = returns (Kept-here r) (λ t e. refl)
lower_params-Good (p ∷ ps) c outer r =
    seq (bind_local-Good DefKind.parameter c outer r false p.name) (λ id q1 k1 n.
      seq (lower_params-Good ps q1 outer k1.ready) (λ hs q2 k2 h.
        returns (Kept-here k2.ready)
          (λ t e. rw (Later-Kept k2 n t e, h t e, read-lower_type_option p.type_ann) refl)))

lower_rest-Good :
    (rest : Option Ident) (c : LowerCtx) (outer : List Scope)
    → Ready outer c
    → Good c outer (Reads read_rest rest) (lower_rest rest c)
unfolding lower_rest
lower_rest-Good none c outer r = returns (Kept-here r) (λ t e. refl)
lower_rest-Good (some name) c outer r =
    seq (bind_local-Good DefKind.local_binding c outer r false name)
      (λ id q k n. returns (Kept-here k.ready) (λ t e. rw (n t e) refl))

mutual
  unfolding lower_pattern read_pattern plain_pattern

  pub lower_pattern-Good :
      (p : Pattern) (c : LowerCtx) (outer : List Scope)
      → Ready outer c
      → Good c outer (Reads read_pattern (plain_pattern p)) (lower_pattern p c)
  lower_pattern-Good (Pattern.wildcard span) c outer r = returns (Kept-here r) (λ t e. refl)
  lower_pattern-Good (Pattern.variable name) c outer r =
      seq (bind_local-Good DefKind.local_binding c outer r false name)
        (λ id q k n. returns (Kept-here k.ready) (λ t e. rw (name-ident t id name (n t e)) refl))
  lower_pattern-Good (Pattern.literal l) c outer r = returns (Kept-here r) (λ t e. refl)
  lower_pattern-Good (Pattern.constructor name fields span) c outer r =
      seq (lower_patterns-Good fields c outer r) (λ hs q1 k1 h.
        seq
          (resolve_or_report-Good DefKind.constructor unresolved_constructor name q1 outer k1.ready)
          (λ id q2 k2 n.
            returns (Kept-here k2.ready) (λ t e. rw (n t e, Later-Kept k2 h t e) refl)))
  lower_pattern-Good (Pattern.list elements rest span) c outer r =
      seq (lower_patterns-Good elements c outer r) (λ hs q1 k1 h.
        seq (lower_rest-Good rest q1 outer k1.ready) (λ hr q2 k2 n.
          returns (Kept-here k2.ready) (λ t e. rw (Later-Kept k2 h t e, n t e) refl)))

  lower_patterns-Good :
      (ps : Patterns) (c : LowerCtx) (outer : List Scope)
      → Ready outer c
      → Good c outer (Reads read_patterns (plain_patterns ps)) (lower_patterns ps c)
  lower_patterns-Good Patterns.no_pattern c outer r = returns (Kept-here r) (λ t e. refl)
  lower_patterns-Good (Patterns.then_pattern p ps) c outer r =
      seq (lower_pattern-Good p c outer r) (λ hp q1 k1 h.
        seq (lower_patterns-Good ps q1 outer k1.ready) (λ hs q2 k2 n.
          returns (Kept-here k2.ready) (λ t e. rw (Later-Kept k2 h t e, n t e) refl)))
