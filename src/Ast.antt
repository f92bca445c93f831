-- ===== src/Ast.antt =====
-- asatsuyu/crates/asatsuyu-ast/src/types.rs: the untyped syntax tree. Operators, literal kinds and
-- visibility are those of Hir, which holds them too.
use asatsuyu.Base.{Bool, Option, List, String}
use asatsuyu.Syntax.Span.{Span}
use asatsuyu.Hir.{LiteralKind, BinOp, UnOp, Visibility}

pub record Ident : Type 0 where
  pub name : String
  pub span : Span

pub record Literal : Type 0 where
  pub kind : LiteralKind
  pub value : String
  pub span : Span

mutual
  pub data TypeExpr : Type 0 where
    named : Ident → TypeExprs → Span → TypeExpr

  pub data TypeExprs : Type 0 where
    no_type : TypeExprs
    then_type : TypeExpr → TypeExprs → TypeExprs

pub record Param : Type 0 where
  pub name : Ident
  pub type_ann : Option TypeExpr
  pub span : Span

mutual
  pub data Pattern : Type 0 where
    wildcard : Span → Pattern
    variable : Ident → Pattern
    literal : Literal → Pattern
    constructor : Ident → Patterns → Span → Pattern
    list : Patterns → Option Ident → Span → Pattern

  pub data Patterns : Type 0 where
    no_pattern : Patterns
    then_pattern : Pattern → Patterns → Patterns

-- `Exprs` is `Vec<Expr>`, `ExprOption` is `Option<Box<Expr>>`, and `MatchArms` is the list of the
-- fields of `MatchArm`: pattern, guard, body, span.
mutual
  pub data Expr : Type 0 where
    literal : Literal → Expr
    variable : Ident → Expr
    block : Exprs → Span → Expr
    call : Expr → Exprs → Span → Expr
    binary_op : BinOp → Expr → Expr → Span → Expr
    unary_op : UnOp → Expr → Span → Expr
    if_expr : Expr → Expr → ExprOption → Span → Expr
    match_expr : Expr → MatchArms → Span → Expr
    pipeline : Expr → Expr → Span → Expr
    let_expr : Ident → Expr → Bool → Span → Expr
    assign : Ident → Expr → Span → Expr
    lambda : List Param → Option TypeExpr → Expr → Span → Expr
    field_access : Expr → Ident → Span → Expr
    try_expr : Expr → Span → Expr
    await_expr : Expr → Span → Expr
    list : Exprs → Span → Expr

  pub data Exprs : Type 0 where
    no_expr : Exprs
    then_expr : Expr → Exprs → Exprs

  pub data ExprOption : Type 0 where
    absent : ExprOption
    present : Expr → ExprOption

  pub data MatchArms : Type 0 where
    no_arm : MatchArms
    then_arm : Pattern → ExprOption → Expr → Span → MatchArms → MatchArms

-- The fields of `Import`: the segments of the path or the name of the Python module, the alias, and
-- the span.
pub data Import : Type 0 where
  module_path : List Ident → Option Ident → Span → Import
  python : Ident → Option Ident → Span → Import

pub record FnDef : Type 0 where
  pub name : Ident
  pub visibility : Visibility
  pub is_async : Bool
  pub pure_span : Option Span
  pub params : List Param
  pub return_type : Option TypeExpr
  pub body : Expr
  pub span : Span

pub record RecordField : Type 0 where
  pub name : Ident
  pub type_ann : TypeExpr
  pub span : Span

pub record VariantField : Type 0 where
  pub label : Option Ident
  pub type_ann : TypeExpr
  pub span : Span

pub record Variant : Type 0 where
  pub name : Ident
  pub fields : List VariantField
  pub span : Span

pub data TypeBody : Type 0 where
  record_fields : List RecordField → TypeBody
  variants : List Variant → TypeBody

pub record CustomType : Type 0 where
  pub name : Ident
  pub visibility : Visibility
  pub type_params : List Ident
  pub body : TypeBody
  pub span : Span

pub data Definition : Type 0 where
  function : FnDef → Definition
  custom_type : CustomType → Definition

pub record Module : Type 0 where
  pub imports : List Import
  pub definitions : List Definition
  pub span : Span
