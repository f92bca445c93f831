-- ===== src/Tests/FfiTests.antt =====
-- A module with a function that returns a class whose property is `Any`.
use asatsuyu.Base.{◌≤◌, ◌≡◌, ◌↔◌, false, none, [], ◌∷◌, Memᴰ}
use asatsuyu.Ffi.{
  FfiType, named, any_type, FfiSymbol, FfiSymbolKind, FfiModule, FfiSource, verified,
  SymbolAdmissibility, str,
}
use asatsuyu.Ffi.Admissibility.{check_symbol, check_module}
use asatsuyu.Ffi.Admissibility.Trust.{AnyIn, surface, check_symbol_verified_iff}
use asatsuyu.Ffi.Admissibility.Levels.{AreGraded, rank, Attained, check_module_lem}

abbrev response : FfiSymbol
response = record {
  name = "Response";
  kind = FfiSymbolKind.class_kind (record {
    name = "Response";
    constructor = none;
    methods = [];
    properties = ("raw", any_type) ∷ [];
  });
  trust_level = none;
}

abbrev get : FfiSymbol
get = record {
  name = "get";
  kind = FfiSymbolKind.function (record {
    params = record { name = "url"; ty = str; has_default = false } ∷ [];
    return_ty = named "requests" "Response";
    is_async = false;
  });
  trust_level = none;
}

abbrev requests : FfiModule
requests = record {
  name = "requests";
  source = FfiSource.py_typed;
  trust_level = verified;
  symbols = get ∷ response ∷ [];
}

check_symbol_verified_iff_example :
    ((check_symbol requests.symbols get).trust_level ≡ verified)
    ↔ ((t : FfiType) → Memᴰ t (surface requests.symbols get.kind) → ¬ AnyIn t)
check_symbol_verified_iff_example = check_symbol_verified_iff requests.symbols get

check_module_lem_example :
    AreGraded verified requests.symbols requests.symbols (check_module requests).symbols
    × ((s : SymbolAdmissibility)
        → Memᴰ s (check_module requests).symbols
        → rank (check_module requests).module_trust ≤ rank s.trust_level)
    × Attained (check_module requests).symbols (check_module requests).module_trust
check_module_lem_example = check_module_lem requests
