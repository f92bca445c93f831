-- ===== src/Purity/Effects.antt =====
-- What counts as an effect in a body, and which functions a body calls by name, read off the
-- syntax: every expression that is evaluated is looked at, and nothing of the scan is used.
pub mod Roots
pub mod Direct
pub mod Recorded
pub mod Called
pub mod Graph
use asatsuyu.Base.{ℕ, ◌≡◌, ◌⊎◌, List, Memᴰ, String}
use asatsuyu.Hir.{
  HirExpr, HirExprs, HirExprOption, HirMatchArms, HirImport, HirImportKind, HirModule, DefKind,
  literal, var, block, call, binary_op, unary_op, if_expr, match_expr, let_expr, assign, lambda,
  field_access, try_expr, await_expr, list, no_expr, then_expr, absent, present, no_arm, then_arm,
}
use asatsuyu.Purity.Scan.{Position, anywhere, callee}

-- The expression is the name, or a chain of members of it.
abbrev pub RootedAt : HirExpr → ℕ → Type 0
RootedAt (var i _) id = i ≡ id
RootedAt (field_access receiver _ _) id = RootedAt receiver id
RootedAt _ id = ⊥

abbrev pub HasRoot : HirExpr → Type 0
HasRoot e = (id : ℕ) × RootedAt e id

-- `P` holds of an expression that is evaluated in the given one. A callee that is a name, or a
-- member of a name, is not evaluated by itself.
module _ (P : HirExpr → Type 0) where
  abbrev mutual
    pub Some : Position → HirExpr → Type 0
    Some anywhere (var id s) = P (var id s)
    Some (callee _) (var id s) = ⊥
    Some anywhere (field_access receiver f s) =
        P (field_access receiver f s) ⊎ Some anywhere receiver
    Some (callee _) (field_access receiver f s) = (¬ HasRoot receiver) × Some anywhere receiver
    Some at (literal l) = P (literal l)
    Some at (call func args s) = P (call func args s) ⊎ (Some (callee s) func ⊎ SomeOf args)
    Some at (try_expr e s) = P (try_expr e s) ⊎ Some anywhere e
    Some at (await_expr e s) = P (await_expr e s) ⊎ Some anywhere e
    Some at (block items s) = P (block items s) ⊎ SomeOf items
    Some at (list items s) = P (list items s) ⊎ SomeOf items
    Some at (binary_op op l r s) = P (binary_op op l r s) ⊎ (Some anywhere l ⊎ Some anywhere r)
    Some at (unary_op op e s) = P (unary_op op e s) ⊎ Some anywhere e
    Some at (lambda ps r body s) = P (lambda ps r body s) ⊎ Some anywhere body
    Some at (if_expr c t f s) =
        P (if_expr c t f s) ⊎ (Some anywhere c ⊎ (Some anywhere t ⊎ SomeIf f))
    Some at (match_expr e arms s) = P (match_expr e arms s) ⊎ (Some anywhere e ⊎ SomeArm arms)
    Some at (let_expr id e m s) = P (let_expr id e m s) ⊎ Some anywhere e
    Some at (assign id e t s) = P (assign id e t s) ⊎ Some anywhere e

    pub SomeOf : HirExprs → Type 0
    SomeOf no_expr = ⊥
    SomeOf (then_expr e es) = Some anywhere e ⊎ SomeOf es

    pub SomeIf : HirExprOption → Type 0
    SomeIf absent = ⊥
    SomeIf (present e) = Some anywhere e

    pub SomeArm : HirMatchArms → Type 0
    SomeArm no_arm = ⊥
    SomeArm (then_arm _ guard body _ arms) = SomeIf guard ⊎ (Some anywhere body ⊎ SomeArm arms)

-- The definition is that of an import of a Python module.
abbrev pub IsPython : HirImportKind → Type 0
IsPython (HirImportKind.python _) = Unit
IsPython (HirImportKind.module_path _) = ⊥

abbrev pub PythonImport : HirModule → ℕ → Type 0
PythonImport m id = (i : HirImport) × Memᴰ i m.imports × (i.def_id ≡ id) × IsPython i.kind

-- To apply a definition of this kind and name counts as an effect: `println`, an import, and a
-- parameter or local binding, since it is not known what it does.
abbrev pub Applied : DefKind → String → Type 0
Applied DefKind.function name = ⊥
Applied DefKind.builtin name = "println" ≡ name
Applied DefKind.constructor name = ⊥
Applied DefKind.type_name name = ⊥
Applied DefKind.parameter name = Unit
Applied DefKind.local_binding name = Unit
Applied DefKind.import name = Unit

-- To call a member of it.
abbrev pub MemberApplied : DefKind → Type 0
MemberApplied DefKind.function = Unit
MemberApplied DefKind.builtin = ⊥
MemberApplied DefKind.constructor = ⊥
MemberApplied DefKind.type_name = ⊥
MemberApplied DefKind.parameter = Unit
MemberApplied DefKind.local_binding = Unit
MemberApplied DefKind.import = Unit

module _ (m : HirModule) where
  -- To call the expression counts as an effect: it does when it is no name and no member of one.
  abbrev pub CalleeEffect : HirExpr → Type 0
  CalleeEffect (var id _) = Applied (m.symbol_table id).kind (m.symbol_table id).name
  CalleeEffect (field_access receiver _ _) =
      (¬ HasRoot receiver)
      ⊎ ((id : ℕ) × RootedAt receiver id × MemberApplied (m.symbol_table id).kind)
  CalleeEffect _ = Unit

  -- The expression by itself: `try`, `await`, a read of an attribute of a Python module, a call.
  abbrev pub Effect : HirExpr → Type 0
  Effect (try_expr _ _) = Unit
  Effect (await_expr _ _) = Unit
  Effect (field_access receiver _ _) = (id : ℕ) × RootedAt receiver id × PythonImport m id
  Effect (call func _ _) = CalleeEffect func
  Effect _ = ⊥

  -- The expression is a call by name of this function.
  abbrev pub NamesFunction : ℕ → HirExpr → Type 0
  NamesFunction id (var i _) = (i ≡ id) × ((m.symbol_table i).kind ≡ DefKind.function)
  NamesFunction id _ = ⊥

  abbrev pub CallOf : ℕ → HirExpr → Type 0
  CallOf id (call func _ _) = NamesFunction id func
  CallOf id _ = ⊥
