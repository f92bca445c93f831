-- ===== src/Ffi.antt =====
-- asatsuyu/crates/asatsuyu-hir/src/ffi/model.rs: the types of Python modules.
pub mod Admissibility
use asatsuyu.Base.{ℕ, Bool, true, false, ◌||◌, Option, List, String}

pub data FfiSource : Type 0 where
  py_typed stub_package typeshed builtin : FfiSource

-- From the least to the most trusted.
pub data FfiTrustLevel : Type 0 where
  unsafe checked verified : FfiTrustLevel

mutual
  pub data FfiType : Type 0 where
    int float str bool none_type bytes : FfiType
    list : FfiType → FfiType
    dict : FfiType → FfiType → FfiType
    tuple : FfiTypes → FfiType
    optional : FfiType → FfiType
    union : FfiTypes → FfiType
    named : String → String → FfiType
    any_type : FfiType

  pub data FfiTypes : Type 0 where
    no_type : FfiTypes
    then_type : FfiType → FfiTypes → FfiTypes

unfoldable mutual
  pub contains_any : FfiType → Bool
  contains_any any_type = true
  contains_any (list inner) = contains_any inner
  contains_any (optional inner) = contains_any inner
  contains_any (dict k v) = contains_any k || contains_any v
  contains_any (tuple elems) = contains_any_in elems
  contains_any (union variants) = contains_any_in variants
  contains_any _ = false

  pub contains_any_in : FfiTypes → Bool
  contains_any_in no_type = false
  contains_any_in (then_type t ts) = contains_any t || contains_any_in ts

pub record FfiParam : Type 0 where
  pub name : String
  pub ty : FfiType
  pub has_default : Bool

pub record FfiSignature : Type 0 where
  pub params : List FfiParam
  pub return_ty : FfiType
  pub is_async : Bool

pub record FfiClass : Type 0 where
  pub name : String
  pub constructor : Option FfiSignature
  pub methods : List (String × FfiSignature)
  pub properties : List (String × FfiType)

pub data FfiSymbolKind : Type 0 where
  function : FfiSignature → FfiSymbolKind
  class_kind : FfiClass → FfiSymbolKind
  constant : FfiType → FfiSymbolKind

pub record FfiSymbol : Type 0 where
  pub name : String
  pub kind : FfiSymbolKind
  pub trust_level : Option FfiTrustLevel

pub record FfiModule : Type 0 where
  pub name : String
  pub source : FfiSource
  pub trust_level : FfiTrustLevel
  pub symbols : List FfiSymbol

pub data AdmissibilityReason : Type 0 where
  fully_typed contains_any_reason untyped : AdmissibilityReason

pub record SymbolAdmissibility : Type 0 where
  pub name : String
  pub trust_level : FfiTrustLevel
  pub reason : AdmissibilityReason

pub record AdmissibilityReport : Type 0 where
  pub module_trust : FfiTrustLevel
  pub symbols : List SymbolAdmissibility
