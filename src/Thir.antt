-- ===== src/Thir.antt =====
-- asatsuyu/crates/asatsuyu-ty/src/types.rs: typed literals and patterns, and the part of a typed
-- match arm that the coverage check reads.
use asatsuyu.Base.{ℕ, String}
use asatsuyu.Syntax.Span.{Span}
use asatsuyu.Types.{Ty}
use asatsuyu.Hir.{LiteralKind}

pub record ThirLiteral : Type 0 where
  pub kind : LiteralKind
  pub value : String
  pub ty : Ty
  pub span : Span

-- `ThirPatterns` is `Vec<ThirPattern>`, and `Rest` is the `Option<Box<ThirPattern>>` of a list.
mutual
  pub data ThirPattern : Type 0 where
    wildcard : Span → ThirPattern
    variable : ℕ → Ty → Span → ThirPattern
    literal : ThirLiteral → ThirPattern
    constructor : ℕ → ThirPatterns → Ty → Span → ThirPattern
    tuple : ThirPatterns → Ty → Span → ThirPattern
    list : ThirPatterns → Rest → Ty → Span → ThirPattern

  pub data ThirPatterns : Type 0 where
    no_pattern : ThirPatterns
    then_pattern : ThirPattern → ThirPatterns → ThirPatterns

  pub data Rest : Type 0 where
    no_rest : Rest
    rest : ThirPattern → Rest

pub record ThirMatchArm : Type 0 where
  pub pattern : ThirPattern
  pub span : Span
