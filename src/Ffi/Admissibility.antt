-- ===== src/Ffi/Admissibility.antt =====
-- asatsuyu/crates/asatsuyu-hir/src/ffi/admissibility.rs: the trust levels of a module's symbols.
pub mod Trust
pub mod Levels
use text.Mathlib.Text.{◌==◌ as str_eq}
use asatsuyu.Base.{
  Bool, true, false, ◌&&◌, ◌||◌, Option, none, some, List, [], ◌∷◌, map, any, String, if◌then◌else◌,
}
use asatsuyu.Ffi.{
  FfiType, named, contains_any, FfiParam, FfiSignature, FfiClass, FfiSymbolKind, FfiSymbol,
  FfiModule, FfiTrustLevel, unsafe, checked, verified, AdmissibilityReason, SymbolAdmissibility,
  AdmissibilityReport,
}

unfoldable pub signature_contains_any : FfiSignature → Bool
unfolding contains_any
signature_contains_any sig =
    any (λ (p : FfiParam). contains_any p.ty) sig.params || contains_any sig.return_ty

unfoldable pub class_contains_any : FfiClass → Bool
unfolding signature_contains_any contains_any
class_contains_any cls =
    elim cls.constructor [ some sig ↦ signature_contains_any sig | none ↦ false ]
    || any (λ (m : String × FfiSignature). signature_contains_any m.1) cls.methods
    || any (λ (p : String × FfiType). contains_any p.1) cls.properties

-- The symbol is the class of that name, and its surface contains `Any`.
abbrev pub is_any_bearing_class : String → FfiSymbol → Bool
is_any_bearing_class name s = str_eq s.name name && elim s.kind [
  | FfiSymbolKind.class_kind cls ↦ class_contains_any cls
  | FfiSymbolKind.function _ ↦ false
  | FfiSymbolKind.constant _ ↦ false
]

unfoldable pub return_refers_to_any_bearing_class : FfiType → List FfiSymbol → Bool
unfolding class_contains_any
return_refers_to_any_bearing_class (named _ name) symbols = any (is_any_bearing_class name) symbols
return_refers_to_any_bearing_class _ symbols = false

-- The test of `check_symbol`.
unfoldable pub has_any : List FfiSymbol → FfiSymbolKind → Bool
unfolding signature_contains_any class_contains_any return_refers_to_any_bearing_class
has_any module_symbols (FfiSymbolKind.function sig) =
    signature_contains_any sig || return_refers_to_any_bearing_class sig.return_ty module_symbols
has_any module_symbols (FfiSymbolKind.class_kind cls) = class_contains_any cls
has_any module_symbols (FfiSymbolKind.constant ty) = contains_any ty

unfoldable pub check_symbol : List FfiSymbol → FfiSymbol → SymbolAdmissibility
unfolding has_any
check_symbol module_symbols symbol =
    if has_any module_symbols symbol.kind
    then record {
      name = symbol.name;
      trust_level = checked;
      reason = AdmissibilityReason.contains_any_reason;
    }
    else record {
      name = symbol.name;
      trust_level = verified;
      reason = AdmissibilityReason.fully_typed;
    }

abbrev pub as_unsafe : FfiSymbol → SymbolAdmissibility
as_unsafe s = record { name = s.name; trust_level = unsafe; reason = AdmissibilityReason.untyped }

-- The lesser of two levels in the derived order.
abbrev pub min_level : FfiTrustLevel → FfiTrustLevel → FfiTrustLevel
min_level unsafe _ = unsafe
min_level checked unsafe = unsafe
min_level checked _ = checked
min_level verified l = l

-- `iter().map(|s| s.trust_level).min().unwrap_or(Verified)`
unfoldable pub min_trust : List SymbolAdmissibility → FfiTrustLevel
min_trust [] = verified
min_trust (s ∷ ss) = min_level s.trust_level (min_trust ss)

unfoldable pub check_module : FfiModule → AdmissibilityReport
unfolding check_symbol min_trust
check_module m =
    let symbols : List SymbolAdmissibility = elim m.trust_level [
      | unsafe ↦ map as_unsafe m.symbols
      | checked ↦ map (check_symbol m.symbols) m.symbols
      | verified ↦ map (check_symbol m.symbols) m.symbols
    ] in
    record { module_trust = min_trust symbols; symbols = symbols }
