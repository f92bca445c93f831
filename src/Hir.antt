-- ===== src/Hir.antt =====
-- asatsuyu/crates/asatsuyu-hir/src/types.rs: definitions, expressions and functions after name
-- resolution, with the operators of asatsuyu/crates/asatsuyu-ast/src/types.rs.
use asatsuyu.Base.{ℕ, Bool, Option, List, String}
use asatsuyu.Syntax.Span.{Span}

pub data LiteralKind : Type 0 where
  int float string bool : LiteralKind

pub data BinOp : Type 0 where
  add sub mul div mod_op eq not_eq lt lt_eq gt gt_eq and or string_concat : BinOp

pub data UnOp : Type 0 where
  neg not : UnOp

pub data Visibility : Type 0 where
  public private : Visibility

pub data DefKind : Type 0 where
  function parameter local_binding constructor type_name builtin import : DefKind

pub record DefData : Type 0 where
  pub name : String
  pub kind : DefKind
  pub is_mutable : Bool
  pub span : Span

-- The arena of definitions: a `DefId` is handed out by `alloc`, so every lookup finds its entry.
abbrev pub SymbolTable : Type 0
SymbolTable = ℕ → DefData

pub record HirLiteral : Type 0 where
  pub kind : LiteralKind
  pub value : String
  pub span : Span

mutual
  pub data HirTypeExpr : Type 0 where
    type_expr : String → HirTypeExprs → Span → HirTypeExpr

  pub data HirTypeExprs : Type 0 where
    no_type : HirTypeExprs
    then_type : HirTypeExpr → HirTypeExprs → HirTypeExprs

pub record HirParam : Type 0 where
  pub def_id : ℕ
  pub type_ann : Option HirTypeExpr
  pub span : Span

mutual
  pub data HirPattern : Type 0 where
    wildcard : Span → HirPattern
    variable : ℕ → Span → HirPattern
    literal : HirLiteral → HirPattern
    constructor : ℕ → HirPatterns → Span → HirPattern
    list : HirPatterns → Option ℕ → Span → HirPattern

  pub data HirPatterns : Type 0 where
    no_pattern : HirPatterns
    then_pattern : HirPattern → HirPatterns → HirPatterns

-- `HirExprs` is `Vec<HirExpr>`, `HirExprOption` is `Option<Box<HirExpr>>`, and `HirMatchArms` is the
-- list of the fields of `HirMatchArm`: pattern, guard, body, span.
mutual
  pub data HirExpr : Type 0 where
    literal : HirLiteral → HirExpr
    var : ℕ → Span → HirExpr
    block : HirExprs → Span → HirExpr
    call : HirExpr → HirExprs → Span → HirExpr
    binary_op : BinOp → HirExpr → HirExpr → Span → HirExpr
    unary_op : UnOp → HirExpr → Span → HirExpr
    if_expr : HirExpr → HirExpr → HirExprOption → Span → HirExpr
    match_expr : HirExpr → HirMatchArms → Span → HirExpr
    let_expr : ℕ → HirExpr → Bool → Span → HirExpr
    assign : ℕ → HirExpr → Span → Span → HirExpr
    lambda : List HirParam → Option HirTypeExpr → HirExpr → Span → HirExpr
    field_access : HirExpr → String → Span → HirExpr
    try_expr : HirExpr → Span → HirExpr
    await_expr : HirExpr → Span → HirExpr
    list : HirExprs → Span → HirExpr

  pub data HirExprs : Type 0 where
    no_expr : HirExprs
    then_expr : HirExpr → HirExprs → HirExprs

  pub data HirExprOption : Type 0 where
    absent : HirExprOption
    present : HirExpr → HirExprOption

  pub data HirMatchArms : Type 0 where
    no_arm : HirMatchArms
    then_arm : HirPattern → HirExprOption → HirExpr → Span → HirMatchArms → HirMatchArms

pub data HirImportKind : Type 0 where
  module_path : List String → HirImportKind
  python : String → HirImportKind

pub record HirImport : Type 0 where
  pub def_id : ℕ
  pub kind : HirImportKind
  pub span : Span

pub record HirFnDef : Type 0 where
  pub def_id : ℕ
  pub visibility : Visibility
  pub is_async : Bool
  pub pure_span : Option Span
  pub params : List HirParam
  pub return_type : Option HirTypeExpr
  pub body : HirExpr
  pub span : Span

pub record HirFieldType : Type 0 where
  pub label : Option String
  pub type_expr : HirTypeExpr
  pub span : Span

pub record HirVariant : Type 0 where
  pub def_id : ℕ
  pub fields : List HirFieldType
  pub span : Span

pub record HirCustomType : Type 0 where
  pub def_id : ℕ
  pub visibility : Visibility
  pub type_params : List String
  pub variants : List HirVariant
  pub span : Span

pub record HirModule : Type 0 where
  pub imports : List HirImport
  pub functions : List HirFnDef
  pub custom_types : List HirCustomType
  pub symbol_table : SymbolTable
  pub span : Span
