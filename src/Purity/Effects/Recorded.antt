-- ===== src/Purity/Effects/Recorded.antt =====
-- The callees that a scan has recorded, and steps that add to them.
use mathlib.Core.List.Memᴰ
use asatsuyu.Base.{ℕ, ◌≡◌, sym, ap, ◌↔◌, ◌⊎◌, inl, inr, List, [], ◌∷◌, ◌++◌, Memᴰ}
use asatsuyu.Syntax.Span.{Span}
use asatsuyu.Purity.Scan.{Scan}

-- The definition is among the callees.
abbrev pub HasIn : ℕ → List (ℕ × Span) → Type 0
HasIn id cs = (span : Span) × Memᴰ (id, span) cs

abbrev pub Has : ℕ → Scan → Type 0
Has id s = HasIn id s.callees

pub has-snoc :
    (id i : ℕ) (span : Span) (cs : List (ℕ × Span))
    → HasIn id (cs ++ (i, span) ∷ []) ↔ (HasIn id cs ⊎ (i ≡ id))
has-snoc id i span [] = (
  λ (sp, m). elim (Memᴰ.cases_cons m) [
    | inl e ↦ inr (sym (ap (λ (q : ℕ × Span). q.0) e))
    | inr rest ↦ absurd (Memᴰ.not-nil rest)
  ],
  λ s. elim s [
    | inl (sp, m) ↦ absurd (Memᴰ.not-nil m)
    | inr e ↦ (span, Memᴰ.head (ap (λ (k : ℕ). (k, span)) (sym e)))
  ],
)
has-snoc id i span (c ∷ cs) = (
  λ (sp, m). elim (Memᴰ.cases_cons m) [
    | inl e ↦ inl (sp, Memᴰ.head e)
    | inr rest ↦ elim ((has-snoc id i span cs).0 (sp, rest)) [
      | inl (sp2, m2) ↦ inl (sp2, Memᴰ.tail m2)
      | inr e ↦ inr e
    ]
  ],
  λ s. elim s [
    | inl (sp, m) ↦ elim (Memᴰ.cases_cons m) [
      | inl e ↦ (sp, Memᴰ.head e)
      | inr rest ↦ let (sp2, m2) = (has-snoc id i span cs).1 (inl (sp, rest)) in (sp2, Memᴰ.tail m2)
    ]
    | inr e ↦ let (sp2, m2) = (has-snoc id i span cs).1 (inr e) in (sp2, Memᴰ.tail m2)
  ],
)

pub nothing : {X A : Type 0} → (¬ A) → X ↔ (X ⊎ A)
nothing n = (λ x. inl x, λ s. elim s [ inl x ↦ x | inr a ↦ absurd (n a) ])

pub chain : {X Y Z A B : Type 0} → Y ↔ (X ⊎ A) → Z ↔ (Y ⊎ B) → Z ↔ (X ⊎ (A ⊎ B))
chain f g = (
  λ z. elim (g.0 z) [
    | inl y ↦ elim (f.0 y) [ inl x ↦ inl x | inr a ↦ inr (inl a) ]
    | inr b ↦ inr (inr b)
  ],
  λ s. g.1 (elim s [
    | inl x ↦ inl (f.1 (inl x))
    | inr t ↦ elim t [ inl a ↦ inl (f.1 (inr a)) | inr b ↦ inr b ]
  ]),
)

pub exchange : {X Z A B : Type 0} → A ↔ B → Z ↔ (X ⊎ A) → Z ↔ (X ⊎ B)
exchange e f = (
  λ z. elim (f.0 z) [ inl x ↦ inl x | inr a ↦ inr (e.0 a) ],
  λ s. f.1 (elim s [ inl x ↦ inl x | inr b ↦ inr (e.1 b) ]),
)

pub skip : {A : Type 0} → A ↔ (⊥ ⊎ A)
skip = (λ a. inr a, λ s. elim s [ inl x ↦ absurd x | inr a ↦ a ])

pub skip_two : {A : Type 0} → A ↔ (⊥ ⊎ (⊥ ⊎ A))
skip_two = (λ a. inr (inr a), λ s. skip.1 (skip.1 s))

pub nowhere : ¬ (⊥ ⊎ (⊥ ⊎ ⊥))
nowhere s = elim s [ inl x ↦ x | inr t ↦ elim t [ inl y ↦ y | inr z ↦ z ] ]
