-- ===== src/Purity.antt =====
-- asatsuyu/crates/asatsuyu-hir/src/purity.rs: the purity lattice, the scan of function bodies, and
-- the propagation of effects over the call graph.
pub mod Scan
pub mod Propagate
pub mod Effects
pub mod Report
pub mod Check
use asatsuyu.Base.{ℕ, Bool, true, false, Option, none, some, List, [], String}
use mathlib.Core.Option
use asatsuyu.Syntax.Span.{Span}

pub data Purity : Type 0 where
  pure effectful : Purity

pub data EffectSource : Type 0 where
  boundary async propagated unresolved : EffectSource

-- The effect was observed rather than assumed.
abbrev pub is_proven : EffectSource → Bool
is_proven unresolved = false
is_proven _ = true

pub record EffectOrigin : Type 0 where
  pub source : EffectSource
  pub span : Span
  pub callee : Option ℕ

pub data UnresolvedCallKind : Type 0 where
  parameter_applied local_applied receiver_untyped module_member computed_callee :
      UnresolvedCallKind

pub record UnresolvedCall : Type 0 where
  pub span : Span
  pub kind : UnresolvedCallKind

abbrev pub is_higher_order : UnresolvedCallKind → Bool
is_higher_order parameter_applied = true
is_higher_order local_applied = true
is_higher_order _ = false

pub record FunctionPurity : Type 0 where
  pub def_id : ℕ
  pub name : String
  pub purity : Purity
  pub origin : Option EffectOrigin
  pub unresolved : List UnresolvedCall

abbrev pub source : FunctionPurity → Option EffectSource
source f = Option.map (λ (o : EffectOrigin). o.source) f.origin

abbrev pub is_effectful : FunctionPurity → Bool
is_effectful f = elim f.purity [ pure ↦ false | effectful ↦ true ]
