-- ===== src/Ffi/Admissibility/Trust.antt =====
-- Trust levels against the types of a symbol's surface.
use text.Mathlib.Text.{◌==◌ as str_eq}
use asatsuyu.Base.{
  ◌≡◌, refl, ◌↔◌, Bool, true, false, Option, none, some, List, [], ◌∷◌, ◌++◌, map, any, String,
  arith, any-append, Memᴰ, Bool-cases, inl, inr, ◌⊎◌, if◌then◌else◌,
}
use mathlib.Core.List.Memᴰ
use asatsuyu.Ffi.{
  FfiType, FfiTypes, list, dict, tuple, optional, union, named, any_type, no_type, then_type,
  contains_any, contains_any_in, FfiParam, FfiSignature, FfiClass, FfiSymbolKind, FfiSymbol,
  verified,
}
use asatsuyu.Ffi.Admissibility.{
  signature_contains_any, class_contains_any, return_refers_to_any_bearing_class, has_any,
  check_symbol, is_any_bearing_class,
}

-- `Any` stands somewhere in the type.
mutual
  pub data AnyIn : FfiType → Type 0 where
    here : AnyIn any_type
    in_list : {t : FfiType} → AnyIn t → AnyIn (list t)
    in_optional : {t : FfiType} → AnyIn t → AnyIn (optional t)
    in_key : {k v : FfiType} → AnyIn k → AnyIn (dict k v)
    in_value : {k v : FfiType} → AnyIn v → AnyIn (dict k v)
    in_tuple : {ts : FfiTypes} → AnyInSome ts → AnyIn (tuple ts)
    in_union : {ts : FfiTypes} → AnyInSome ts → AnyIn (union ts)

  pub data AnyInSome : FfiTypes → Type 0 where
    in_first : {t : FfiType} {ts : FfiTypes} → AnyIn t → AnyInSome (then_type t ts)
    in_later : {t : FfiType} {ts : FfiTypes} → AnyInSome ts → AnyInSome (then_type t ts)

mutual
  unfolding contains_any contains_any_in

  contains_any_complete : {t : FfiType} → AnyIn t → contains_any t ≡ true
  contains_any_complete here = refl
  contains_any_complete (in_list h) = contains_any_complete h
  contains_any_complete (in_optional h) = contains_any_complete h
  contains_any_complete (in_key h) = ground (arith, contains_any_complete h)
  contains_any_complete (in_value h) = ground (arith, contains_any_complete h)
  contains_any_complete (in_tuple h) = contains_any_in_complete h
  contains_any_complete (in_union h) = contains_any_in_complete h

  contains_any_in_complete : {ts : FfiTypes} → AnyInSome ts → contains_any_in ts ≡ true
  contains_any_in_complete (in_first h) = ground (arith, contains_any_complete h)
  contains_any_in_complete (in_later h) = ground (arith, contains_any_in_complete h)

mutual
  unfolding contains_any contains_any_in

  contains_any-sound : (t : FfiType) → contains_any t ≡ true → AnyIn t
  contains_any-sound any_type h = here
  contains_any-sound (list t) h = in_list (contains_any-sound t h)
  contains_any-sound (optional t) h = in_optional (contains_any-sound t h)
  contains_any-sound (dict k v) h = elim (Bool-cases (contains_any k)) [
    | inl e ↦ in_key (contains_any-sound k e)
    | inr e ↦ in_value (contains_any-sound v (ground arith))
  ]
  contains_any-sound (tuple ts) h = in_tuple (contains_any_in_sound ts h)
  contains_any-sound (union ts) h = in_union (contains_any_in_sound ts h)
  contains_any-sound _ h = absurd (ground arith)

  contains_any_in_sound : (ts : FfiTypes) → contains_any_in ts ≡ true → AnyInSome ts
  contains_any_in_sound no_type h = absurd (ground arith)
  contains_any_in_sound (then_type t ts) h = elim (Bool-cases (contains_any t)) [
    | inl e ↦ in_first (contains_any-sound t e)
    | inr e ↦ in_later (contains_any_in_sound ts (ground arith))
  ]

-- The types on the surface of a signature, of a class, and of the classes with a name.
abbrev pub signature_types : FfiSignature → List FfiType
signature_types sig = map (λ (p : FfiParam). p.ty) sig.params ++ sig.return_ty ∷ []

abbrev pub method_types : List (String × FfiSignature) → List FfiType
method_types [] = []
method_types (m ∷ ms) = signature_types m.1 ++ method_types ms

abbrev pub class_types : FfiClass → List FfiType
class_types cls =
    elim cls.constructor [ some sig ↦ signature_types sig | none ↦ [] ]
    ++ method_types cls.methods
    ++ map (λ (p : String × FfiType). p.1) cls.properties

abbrev pub types_of_class : String → List FfiSymbol → List FfiType
types_of_class name [] = []
types_of_class name (s ∷ symbols) = elim s.kind [
  | FfiSymbolKind.class_kind cls ↦
      if str_eq s.name name
      then class_types cls ++ types_of_class name symbols
      else types_of_class name symbols
  | FfiSymbolKind.function _ ↦ types_of_class name symbols
  | FfiSymbolKind.constant _ ↦ types_of_class name symbols
]

-- The surface of a symbol; a function has the classes that its return type names in the module.
abbrev pub surface : List FfiSymbol → FfiSymbolKind → List FfiType
surface symbols (FfiSymbolKind.function sig) =
    signature_types sig
    ++ elim sig.return_ty [ named _ name ↦ types_of_class name symbols | _ ↦ [] ]
surface symbols (FfiSymbolKind.class_kind cls) = class_types cls
surface symbols (FfiSymbolKind.constant ty) = ty ∷ []

any-map {ℓ κ} :
    {A : Type ℓ} {B : Type κ} (p : B → Bool) (f : A → B) (xs : List A)
    → any p (map f xs) ≡ any (λ x. p (f x)) xs
any-map p f [] = refl
any-map p f (x ∷ xs) = ground (arith, any-map p f xs)

any-signature_types :
    (sig : FfiSignature) → any contains_any (signature_types sig) ≡ signature_contains_any sig
unfolding signature_contains_any
any-signature_types sig = ground (
  arith,
  any-append contains_any (map (λ (p : FfiParam). p.ty) sig.params) (sig.return_ty ∷ []),
  any-map contains_any (λ (p : FfiParam). p.ty) sig.params,
)

any-method_types :
    (ms : List (String × FfiSignature))
    → any contains_any (method_types ms)
      ≡ any (λ (m : String × FfiSignature). signature_contains_any m.1) ms
any-method_types [] = refl
any-method_types (m ∷ ms) = ground (
  arith,
  any-append contains_any (signature_types m.1) (method_types ms),
  any-method_types ms,
  any-signature_types m.1,
)

any-constructor :
    (c : Option FfiSignature)
    → any contains_any (elim c [ some sig ↦ signature_types sig | none ↦ [] ])
      ≡ elim c [ some sig ↦ signature_contains_any sig | none ↦ false ]
any-constructor none = refl
any-constructor (some sig) = any-signature_types sig

any-class_types : (cls : FfiClass) → any contains_any (class_types cls) ≡ class_contains_any cls
unfolding class_contains_any
any-class_types cls =
    let c : List FfiType = elim cls.constructor [ some sig ↦ signature_types sig | none ↦ [] ] in
    let p : List FfiType = map (λ (p : String × FfiType). p.1) cls.properties in
    ground (
      arith,
      any-append contains_any c (method_types cls.methods ++ p),
      any-append contains_any (method_types cls.methods) p,
      any-append contains_any (c ++ method_types cls.methods) p,
      any-append contains_any c (method_types cls.methods),
      any-constructor cls.constructor,
      any-method_types cls.methods,
      any-map contains_any (λ (p : String × FfiType). p.1) cls.properties,
    )

kind-cases :
    (k : FfiSymbolKind)
    → ((cls : FfiClass) × (k ≡ FfiSymbolKind.class_kind cls))
      ⊎ (((sig : FfiSignature) × (k ≡ FfiSymbolKind.function sig))
          ⊎ ((ty : FfiType) × (k ≡ FfiSymbolKind.constant ty)))
kind-cases (FfiSymbolKind.class_kind cls) = inl (cls, refl)
kind-cases (FfiSymbolKind.function sig) = inr (inl (sig, refl))
kind-cases (FfiSymbolKind.constant ty) = inr (inr (ty, refl))

any-types_of_class :
    (name : String) (symbols : List FfiSymbol)
    → any contains_any (types_of_class name symbols) ≡ any (is_any_bearing_class name) symbols
any-types_of_class name [] = refl
any-types_of_class name (s ∷ symbols) = elim (kind-cases s.kind) [
  | inl (cls, e) ↦ ground (
    arith,
    e,
    any-types_of_class name symbols,
    any-append contains_any (class_types cls) (types_of_class name symbols),
    any-class_types cls,
  )
  | inr (inl (sig, e)) ↦ ground (arith, e, any-types_of_class name symbols)
  | inr (inr (ty, e)) ↦ ground (arith, e, any-types_of_class name symbols)
]

any-returned :
    (t : FfiType) (symbols : List FfiSymbol)
    → any contains_any (elim t [ named _ name ↦ types_of_class name symbols | _ ↦ [] ])
      ≡ return_refers_to_any_bearing_class t symbols
unfolding return_refers_to_any_bearing_class
any-returned (named m name) symbols = any-types_of_class name symbols
any-returned _ symbols = refl

any-surface :
    (symbols : List FfiSymbol) (k : FfiSymbolKind)
    → any contains_any (surface symbols k) ≡ has_any symbols k
unfolding has_any
any-surface symbols (FfiSymbolKind.class_kind cls) = any-class_types cls
any-surface symbols (FfiSymbolKind.constant ty) = ground arith
any-surface symbols (FfiSymbolKind.function sig) = ground (
  arith,
  any-append contains_any (signature_types sig)
      (elim sig.return_ty [ named _ name ↦ types_of_class name symbols | _ ↦ [] ]),
  any-signature_types sig,
  any-returned sig.return_ty symbols,
)

any-mem :
    (ts : List FfiType) → (any contains_any ts ≡ false) ↔ ((t : FfiType) → Memᴰ t ts → ¬ AnyIn t)
any-mem [] = (λ h t m. absurd (Memᴰ.not-nil m), λ h. refl)
any-mem (x ∷ xs) = (
  λ h t m a. elim (Memᴰ.cases_cons m) [
    | inl e ↦ absurd (ground (arith, contains_any_complete a, e))
    | inr rest ↦ (any-mem xs).0 (ground arith) t rest a
  ],
  λ h. elim (Bool-cases (contains_any x)) [
    | inl e ↦ absurd (h x (Memᴰ.head refl) (contains_any-sound x e))
    | inr e ↦ ground (arith, e, (any-mem xs).1 (λ t m. h t (Memᴰ.tail m)))
  ],
)

-- `check_symbol` says `Verified` exactly if no type of the symbol's surface holds `Any`; the surface of a function includes that of the classes of the module that its return
-- type names.
pub check_symbol_verified_iff :
    (symbols : List FfiSymbol) (s : FfiSymbol)
    → ((check_symbol symbols s).trust_level ≡ verified)
      ↔ ((t : FfiType) → Memᴰ t (surface symbols s.kind) → ¬ AnyIn t)
unfolding check_symbol
check_symbol_verified_iff symbols s = (
  λ h. (any-mem (surface symbols s.kind)).0 (ground (arith, any-surface symbols s.kind)),
  λ h. ground (arith, any-surface symbols s.kind, (any-mem (surface symbols s.kind)).1 h),
)
