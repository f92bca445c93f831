-- ===== src/Ffi/Admissibility/Levels.antt =====
-- The trust level of a module against those of its symbols.
use asatsuyu.Base.{
  ◌≡◌, refl, sym, ◌∙◌, ◌⊎◌, inl, inr, ◌↔◌, List, [], ◌∷◌, map, arith, ℕ, ◌≤◌, Memᴰ, ◌≢◌, Bool-cases,
}
use mathlib.Core.List.Memᴰ
use asatsuyu.Ffi.{
  FfiModule, FfiSymbol, FfiType, FfiTrustLevel, unsafe, checked, verified, SymbolAdmissibility,
}
use asatsuyu.Ffi.Admissibility.{
  check_module, check_symbol, has_any, as_unsafe, min_trust, min_level,
}
use asatsuyu.Ffi.Admissibility.Trust.{AnyIn, surface, check_symbol_verified_iff}

-- The position of a level in the derived order.
abbrev pub rank : FfiTrustLevel → ℕ
rank unsafe = 0
rank checked = 1
rank verified = 2

min_trust-le :
    (ss : List SymbolAdmissibility) (s : SymbolAdmissibility)
    → Memᴰ s ss
    → rank (min_trust ss) ≤ rank s.trust_level
unfolding min_trust
min_trust-le [] s m = absurd (Memᴰ.not-nil m)
min_trust-le (x ∷ ss) s m = elim (Memᴰ.cases_cons m) [
  | inl e ↦ ground (arith, e)
  | inr rest ↦ ground (arith, min_trust-le ss s rest)
]

min_level-cases : (a b : FfiTrustLevel) → (min_level a b ≡ a) ⊎ (min_level a b ≡ b)
min_level-cases unsafe b = inl refl
min_level-cases checked unsafe = inr refl
min_level-cases checked checked = inl refl
min_level-cases checked verified = inl refl
min_level-cases verified b = inr refl

-- Some symbol has the level, or there is no symbol and the level is `Verified`.
abbrev pub Attained : List SymbolAdmissibility → FfiTrustLevel → Type 0
Attained ss l =
    ((ss ≡ []) × (l ≡ verified)) ⊎ ((s : SymbolAdmissibility) × Memᴰ s ss × (s.trust_level ≡ l))

min_trust-Attained : (ss : List SymbolAdmissibility) → Attained ss (min_trust ss)
unfolding min_trust
min_trust-Attained [] = inl (refl, refl)
min_trust-Attained (x ∷ ss) = elim (min_trust-Attained ss) [
  | inl (e, l) ↦ inr (x, Memᴰ.head refl, ground (arith, l))
  | inr (s, m, l) ↦ elim (min_level-cases x.trust_level (min_trust ss)) [
    | inl e ↦ inr (x, Memᴰ.head refl, sym e)
    | inr e ↦ inr (s, Memᴰ.tail m, l ∙ sym e)
  ]
]

-- What the level of a symbol means in a module with a level of its own: in an `Unsafe` module the
-- symbol is `Unsafe`; otherwise it is `Verified` where no type of its surface holds `Any`, and
-- `Checked` where one does.
abbrev pub Graded : FfiTrustLevel → List FfiSymbol → FfiSymbol → FfiTrustLevel → Type 0
Graded unsafe symbols s l = l ≡ unsafe
Graded _ symbols s l =
    ((l ≡ verified) ⊎ (l ≡ checked))
    × ((l ≡ verified) ↔ ((t : FfiType) → Memᴰ t (surface symbols s.kind) → ¬ AnyIn t))

-- An entry of the report for each symbol, in their order, with its name and its level.
abbrev pub AreGraded :
    FfiTrustLevel → List FfiSymbol → List FfiSymbol → List SymbolAdmissibility → Type 0
AreGraded level symbols [] [] = Unit
AreGraded level symbols (s ∷ ss) (r ∷ rs) =
    (r.name ≡ s.name) × Graded level symbols s r.trust_level × AreGraded level symbols ss rs
AreGraded level symbols _ _ = ⊥

as_unsafe-AreGraded : (symbols ss : List FfiSymbol) → AreGraded unsafe symbols ss (map as_unsafe ss)
as_unsafe-AreGraded symbols [] = tt
as_unsafe-AreGraded symbols (s ∷ ss) = (refl, refl, as_unsafe-AreGraded symbols ss)

check_symbol-name :
    (symbols : List FfiSymbol) (s : FfiSymbol) → (check_symbol symbols s).name ≡ s.name
unfolding check_symbol
check_symbol-name symbols s = ground arith

check_symbol-level :
    (symbols : List FfiSymbol) (s : FfiSymbol)
    → ((check_symbol symbols s).trust_level ≡ verified)
      ⊎ ((check_symbol symbols s).trust_level ≡ checked)
unfolding check_symbol
check_symbol-level symbols s = elim (Bool-cases (has_any symbols s.kind)) [
  | inl e ↦ inr (rw e refl)
  | inr e ↦ inl (rw e refl)
]

check_symbol-AreGraded :
    (level : FfiTrustLevel) (symbols ss : List FfiSymbol)
    → level ≢ unsafe
    → AreGraded level symbols ss (map (check_symbol symbols) ss)
check_symbol-AreGraded level symbols [] h = tt
check_symbol-AreGraded level symbols (s ∷ ss) h =
    (check_symbol-name symbols s, graded level h, check_symbol-AreGraded level symbols ss h)
  where
    graded :
        (l : FfiTrustLevel) → l ≢ unsafe → Graded l symbols s (check_symbol symbols s).trust_level
    graded unsafe n = absurd (n refl)
    graded checked n = (check_symbol-level symbols s, check_symbol_verified_iff symbols s)
    graded verified n = (check_symbol-level symbols s, check_symbol_verified_iff symbols s)

-- The report of a module: the symbols of the module in their order, with their names.
check_module-AreGraded :
    (m : FfiModule) → AreGraded m.trust_level m.symbols m.symbols (check_module m).symbols
unfolding check_module
check_module-AreGraded m = graded m.trust_level
  where
    graded :
        (l : FfiTrustLevel)
        → AreGraded l m.symbols m.symbols (elim l [
          | unsafe ↦ map as_unsafe m.symbols
          | checked ↦ map (check_symbol m.symbols) m.symbols
          | verified ↦ map (check_symbol m.symbols) m.symbols
        ])
    graded unsafe = as_unsafe-AreGraded m.symbols m.symbols
    graded checked = check_symbol-AreGraded checked m.symbols m.symbols (λ e. cc e)
    graded verified = check_symbol-AreGraded verified m.symbols m.symbols (λ e. cc e)

-- `check_module` lists the module's symbols in their order, each with its name. In an `Unsafe`
-- module each is `Unsafe`; otherwise a symbol is `Verified` if no type of its surface holds
-- `Any`, and `Checked` if one does. The module's trust level is the least of these levels,
-- `Verified` without symbols.
pub check_module_lem :
    (m : FfiModule)
    → AreGraded m.trust_level m.symbols m.symbols (check_module m).symbols
      × ((s : SymbolAdmissibility)
          → Memᴰ s (check_module m).symbols
          → rank (check_module m).module_trust ≤ rank s.trust_level)
      × Attained (check_module m).symbols (check_module m).module_trust
unfolding check_module
check_module_lem m = (check_module-AreGraded m, λ s h. min_trust-le _ s h, min_trust-Attained _)
