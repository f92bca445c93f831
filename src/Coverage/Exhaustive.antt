-- ===== src/Coverage/Exhaustive.antt =====
-- A match without an E0300 handles every value.
use asatsuyu.Base.{ℕ, ◌≡◌, true, false, Option, some, String, Memᴰ}
use text.Mathlib.Text.{◌==◌ as str_eq}
use asatsuyu.Syntax.Span.{Span}
use asatsuyu.Types.{PrimTy, Ty, Tys, primitive, named}
use asatsuyu.Coverage.{AdtDef, AdtVariant}
use asatsuyu.Coverage.Values.{Value, Values, constructed, list_value, value_count}

-- The values of a type whose match is checked: lists, the constructors of a registered type with
-- as many fields as they have, and any value for a primitive type.
pub data IsValueOf (registry : ℕ → Option AdtDef) (arity : ℕ → ℕ) : Ty → Value → Type 0 where
  of_list :
      {d : ℕ} {name : String} {args : Tys} {vs : Values}
      → str_eq name "List" ≡ true
      → IsValueOf registry arity (named d name args) (list_value vs)
  of_adt :
      {d : ℕ} {name : String} {args : Tys} {vs : Values} (def : AdtDef) (v : AdtVariant)
      → str_eq name "List" ≡ false
      → registry d ≡ some def
      → Memᴰ v def.variants
      → value_count vs ≡ arity v.ctor_def_id
      → IsValueOf registry arity (named d name args) (constructed v.ctor_def_id vs)
  of_primitive : {p : PrimTy} {v : Value} → IsValueOf registry arity (primitive p) v
