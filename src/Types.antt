-- ===== src/Types.antt =====
-- asatsuyu/crates/asatsuyu-ty/src/types.rs: the types of the language and type schemes.
use asatsuyu.Base.{ℕ, List, [], String}

pub data PrimTy : Type 0 where
  int float string bool none : PrimTy

-- `DefId` and `TyVarId` are arena indices. `Tys` is the source's `Vec<Ty>`.
mutual
  pub data Ty : Type 0 where
    primitive : PrimTy → Ty
    function : Tys → Ty → Ty
    named : ℕ → String → Tys → Ty
    ffi_module : String → Ty
    ffi_instance : String → String → Ty
    opaque : String → String → Ty
    var : ℕ → Ty
    error : Ty

  pub data Tys : Type 0 where
    nil : Tys
    cons : Ty → Tys → Tys

pub PrimTy-discrete : Discrete PrimTy
PrimTy-discrete = hlevel

pub record TypeScheme : Type 0 where
  pub vars : List ℕ
  pub ty : Ty

abbrev pub mono : Ty → TypeScheme
mono t = record { vars = []; ty = t }
