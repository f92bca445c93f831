-- ===== src/Lower/Trace/Types.antt =====
-- Custom types of lower.rs read back with the names of the type and of its constructors.
use mathlib.Core.Path.{subst}
use asatsuyu.Base.{ℕ, ◌≡◌, refl, sym, Option, none, some, List, [], ◌∷◌, map, ◌>>=◌, String}
use asatsuyu.Syntax.Span.{dummy}
use asatsuyu.Hir.{DefData, HirFieldType, HirVariant, HirCustomType}
use asatsuyu.Ast.{Ident, RecordField, VariantField, Variant, TypeBody, CustomType}
use asatsuyu.Lower.Modules.{
  names_of, variants_of, TypeEntry, lower_field, lower_record_field, lower_variants, lower_body,
  lower_custom_type,
}
use asatsuyu.Lower.Desugar.{unplaced, plain_type}
use asatsuyu.Lower.ReadBack.{ident_at, read_type}
use asatsuyu.Lower.Trace.Patterns.{read-lower_type}

abbrev pub label_of : Option Ident → Option Ident
label_of none = none
label_of (some name) = some (unplaced name)

abbrev pub plain_field : VariantField → VariantField
plain_field f = record f { label = label_of f.label; type_ann = plain_type f.type_ann }

abbrev pub plain_record_field : RecordField → VariantField
plain_record_field f = record {
  label = some (unplaced f.name);
  type_ann = plain_type f.type_ann;
  span = f.span;
}

abbrev pub plain_fields : List VariantField → List VariantField
plain_fields [] = []
plain_fields (f ∷ fs) = plain_field f ∷ plain_fields fs

abbrev pub plain_record_fields : List RecordField → List VariantField
plain_record_fields [] = []
plain_record_fields (f ∷ fs) = plain_record_field f ∷ plain_record_fields fs

abbrev pub plain_variants : List Variant → List Variant
plain_variants [] = []
plain_variants (v ∷ vs) = record v { fields = plain_fields v.fields } ∷ plain_variants vs

-- A record type is a type with one constructor of its name.
abbrev pub plain_body : CustomType → TypeBody → List Variant
plain_body ct (TypeBody.variants variants) = plain_variants variants
plain_body ct (TypeBody.record_fields fields) =
    record { name = ct.name; fields = plain_record_fields fields; span = ct.span } ∷ []

abbrev pub without_places : List Ident → List Ident
without_places [] = []
without_places (name ∷ names) = unplaced name ∷ without_places names

unfoldable pub plain_custom_type : CustomType → CustomType
plain_custom_type ct = record ct {
  type_params = without_places ct.type_params;
  body = TypeBody.variants (plain_body ct ct.body);
}

abbrev pub read_name : String → Ident
read_name name = record { name = name; span = dummy }

abbrev pub read_names : List String → List Ident
read_names [] = []
read_names (name ∷ names) = read_name name ∷ read_names names

abbrev pub read_label : Option String → Option Ident
read_label none = none
read_label (some name) = some (read_name name)

abbrev pub read_fields : List HirFieldType → List VariantField
read_fields [] = []
read_fields (f ∷ fs) =
    record { label = read_label f.label; type_ann = read_type f.type_expr; span = f.span }
    ∷ read_fields fs

unfoldable pub read_variants : List DefData → List HirVariant → Option (List Variant)
read_variants t [] = some []
read_variants t (v ∷ vs) = do
  name ← ident_at t v.def_id
  rest ← read_variants t vs
  some (record { name = name; fields = read_fields v.fields; span = v.span } ∷ rest)

unfoldable pub read_custom_type : List DefData → HirCustomType → Option CustomType
unfolding read_variants
read_custom_type t h = do
  name ← ident_at t h.def_id
  variants ← read_variants t h.variants
  some (record {
    name = name;
    visibility = h.visibility;
    type_params = read_names h.type_params;
    body = TypeBody.variants variants;
    span = h.span;
  })

read-names_of : (names : List Ident) → read_names (names_of names) ≡ without_places names
read-names_of [] = refl
read-names_of (name ∷ names) = rw (read-names_of names) refl

read-label :
    (l : Option Ident)
    → read_label (elim l [ some name ↦ some name.name | none ↦ none ]) ≡ label_of l
read-label none = refl
read-label (some name) = refl

read-lower_fields : (fs : List VariantField) → read_fields (map lower_field fs) ≡ plain_fields fs
read-lower_fields [] = refl
read-lower_fields (f ∷ fs) =
    rw (read-label f.label, read-lower_type f.type_ann, read-lower_fields fs) refl

read-lower_record_fields :
    (fs : List RecordField) → read_fields (map lower_record_field fs) ≡ plain_record_fields fs
read-lower_record_fields [] = refl
read-lower_record_fields (f ∷ fs) =
    rw (read-lower_type f.type_ann, read-lower_record_fields fs) refl

-- The identifiers stand for the constructors of the variants, in order.
abbrev pub Constructors : List DefData → List Variant → List ℕ → Type 0
Constructors t [] [] = Unit
Constructors t (v ∷ vs) (id ∷ ids) = (ident_at t id ≡ some v.name) × Constructors t vs ids
Constructors t _ _ = ⊥

read-lower_variants :
    (t : List DefData) (vs : List Variant) (ids : List ℕ)
    → Constructors t vs ids
    → read_variants t (lower_variants vs ids) ≡ some (plain_variants vs)
unfolding read_variants
read-lower_variants t [] [] h = refl
read-lower_variants t (v ∷ vs) (id ∷ ids) (h, hs) =
    rw (h, read-lower_variants t vs ids hs, read-lower_fields v.fields) refl
read-lower_variants t [] (_ ∷ _) h = elim h [ ]
read-lower_variants t (_ ∷ _) [] h = elim h [ ]

-- An entry of a custom type has identifiers for its name and for its constructors.
abbrev pub StandsFor : List DefData → CustomType → TypeEntry → Type 0
StandsFor t ct entry =
    (entry.custom_type ≡ ct)
    × (ident_at t entry.def_id ≡ some ct.name)
    × Constructors t (variants_of ct.body) entry.ctor_ids

read-lower_body :
    (t : List DefData) (entry : TypeEntry) (body : TypeBody)
    → (ident_at t entry.def_id ≡ some entry.custom_type.name)
    → Constructors t (variants_of body) entry.ctor_ids
    → read_variants t (lower_body body entry) ≡ some (plain_body entry.custom_type body)
unfolding lower_body read_variants
read-lower_body t entry (TypeBody.variants variants) name h =
    read-lower_variants t variants entry.ctor_ids h
read-lower_body t entry (TypeBody.record_fields fields) name h =
    rw (name, read-lower_record_fields fields) refl

read-lower_entry :
    (t : List DefData) (entry : TypeEntry)
    → (ident_at t entry.def_id ≡ some entry.custom_type.name)
    → Constructors t (variants_of entry.custom_type.body) entry.ctor_ids
    → read_custom_type t (lower_custom_type entry) ≡ some (plain_custom_type entry.custom_type)
unfolding lower_custom_type read_custom_type plain_custom_type
read-lower_entry t entry name h =
    let ct = entry.custom_type in
    rw (name, read-lower_body t entry ct.body name h, read-names_of ct.type_params) refl

pub read-lower_custom_type :
    (t : List DefData) (ct : CustomType) (entry : TypeEntry)
    → StandsFor t ct entry
    → read_custom_type t (lower_custom_type entry) ≡ some (plain_custom_type ct)
read-lower_custom_type t ct entry (same, name, h) =
    subst (λ x. read_custom_type t (lower_custom_type entry) ≡ some (plain_custom_type x)) same
      (read-lower_entry t entry
        (subst (λ (x : CustomType). ident_at t entry.def_id ≡ some x.name) (sym same) name)
        (subst (λ (x : CustomType). Constructors t (variants_of x.body) entry.ctor_ids) (sym same)
          h))
