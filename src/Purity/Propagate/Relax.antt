-- ===== src/Purity/Propagate/Relax.antt =====
-- One round of the propagation: what the inner loop changes.
use asatsuyu.Base.{
  ℕ, zero, suc, ◌+◌, ◌<◌, ◌≡◌, refl, ◌↔◌, ◌⊎◌, inl, inr, Bool, true, false, some, List, [], ◌∷◌,
  if◌then◌else◌, get_elem?, set, length, length-set, arith, Memᴰ, Memᴰ-cons, Option-cases,
}
use asatsuyu.Syntax.Span.{Span}
use asatsuyu.Purity.{FunctionPurity, is_effectful}
use asatsuyu.Purity.Propagate.{State, tainted, relax, relax_all}

-- The function at a position is effectful.
abbrev pub effectful_at : List FunctionPurity → ℕ → Bool
effectful_at [] i = false
effectful_at (f ∷ fs) zero = is_effectful f
effectful_at (f ∷ fs) (suc i) = effectful_at fs i

-- The functions that are still pure.
abbrev pub pure_count : List FunctionPurity → ℕ
pure_count [] = 0
pure_count (f ∷ fs) = if is_effectful f then pure_count fs else suc (pure_count fs)

effectful_at-set :
    (fs : List FunctionPurity) (i v : ℕ) (f : FunctionPurity) (callee : ℕ) (span : Span)
    → get_elem? fs i ≡ some f
    → (effectful_at (set fs i (tainted callee span f)) v ≡ true)
      ↔ ((effectful_at fs v ≡ true) ⊎ (v ≡ i))
effectful_at-set [] i v f callee span e = absurd (cc e)
effectful_at-set (x ∷ fs) zero zero f callee span e = (λ _. inr refl, λ _. refl)
effectful_at-set (x ∷ fs) zero (suc v) f callee span e = ground arith
effectful_at-set (x ∷ fs) (suc i) zero f callee span e = ground arith
effectful_at-set (x ∷ fs) (suc i) (suc v) f callee span e =
    ground (arith, effectful_at-set fs i v f callee span)

pure_count-set :
    (fs : List FunctionPurity) (i : ℕ) (f : FunctionPurity) (callee : ℕ) (span : Span)
    → get_elem? fs i ≡ some f
    → is_effectful f ≡ false
    → suc (pure_count (set fs i (tainted callee span f))) ≡ pure_count fs
pure_count-set [] i f callee span e p = absurd (cc e)
pure_count-set (x ∷ fs) zero f callee span e p = ground arith
pure_count-set (x ∷ fs) (suc i) f callee span e p =
    ground (arith, pure_count-set fs i f callee span)

effectful_at-elem :
    (fs : List FunctionPurity) (i : ℕ) (f : FunctionPurity)
    → get_elem? fs i ≡ some f
    → effectful_at fs i ≡ is_effectful f
effectful_at-elem [] i f e = cc
effectful_at-elem (x ∷ fs) zero f e = ground arith
effectful_at-elem (x ∷ fs) (suc i) f e = effectful_at-elem fs i f e

get_elem?-lt :
    (fs : List FunctionPurity) (i : ℕ)
    → i < length fs
    → (f : FunctionPurity) × (get_elem? fs i ≡ some f)
get_elem?-lt [] i h = absurd (omega arith)
get_elem?-lt (x ∷ fs) zero h = (x, refl)
get_elem?-lt (x ∷ fs) (suc i) h = get_elem?-lt fs i (omega arith)

get_elem?-ge :
    (fs : List FunctionPurity) (i : ℕ) (f : FunctionPurity)
    → get_elem? fs i ≡ some f
    → i < length fs
get_elem?-ge [] i f e = absurd (cc e)
get_elem?-ge (x ∷ fs) zero f e = omega arith
get_elem?-ge (x ∷ fs) (suc i) f e = omega (arith, get_elem?-ge fs i f e)

-- Every position that turns effectful is put on the work list, and nothing else is.
pub record Conserves (s t : State) : Type 0 where
  pub size : length t.functions ≡ length s.functions
  pub work : pure_count t.functions + length t.worklist ≡ pure_count s.functions + length s.worklist

relax-Conserves :
    (callee : ℕ) (s : State) (c : ℕ) (span : Span) → Conserves s (relax callee s (c, span))
unfolding relax
relax-Conserves callee s c span = elim (Option-cases (get_elem? s.functions c)) [
  | inl e ↦ ground arith
  | inr (f, e) ↦ ground (
    arith,
    pure_count-set s.functions c f callee span e,
    length-set s.functions c (tainted callee span f),
  )
]

pub relax_all-Conserves :
    (callee : ℕ) (s : State) (calls : List (ℕ × Span)) → Conserves s (relax_all callee s calls)
unfolding relax_all
relax_all-Conserves callee s [] = omega arith
relax_all-Conserves callee s ((c, span) ∷ calls) = omega (
  arith,
  relax-Conserves callee s c span,
  relax_all-Conserves callee (relax callee s (c, span)) calls,
)

-- The position is one of the callers.
abbrev pub Caller : ℕ → List (ℕ × Span) → Type 0
Caller v [] = ⊥
Caller v ((c, _) ∷ calls) = (v ≡ c) ⊎ Caller v calls

relax-effectful :
    (callee : ℕ) (s : State) (c : ℕ) (span : Span) (v : ℕ)
    → (effectful_at (relax callee s (c, span)).functions v ≡ true)
      ↔ ((effectful_at s.functions v ≡ true) ⊎ ((v ≡ c) × (v < length s.functions)))
unfolding relax
relax-effectful callee s c span v = elim (Option-cases (get_elem? s.functions c)) [
  | inl e ↦ ground (arith, get_elem?-lt s.functions c)
  | inr (f, e) ↦ ground (
    arith,
    effectful_at-set s.functions c v f callee span e,
    effectful_at-elem s.functions c f e,
    get_elem?-ge s.functions c f e,
  )
]

relax-worklist :
    (callee : ℕ) (s : State) (c : ℕ) (span : Span) (v : ℕ)
    → Memᴰ v (relax callee s (c, span)).worklist ↔ (
        Memᴰ v s.worklist
        ⊎ ((effectful_at (relax callee s (c, span)).functions v ≡ true)
            × (effectful_at s.functions v ≡ false)))
unfolding relax
relax-worklist callee s c span v = elim (Option-cases (get_elem? s.functions c)) [
  | inl e ↦ ground arith
  | inr (f, e) ↦ ground (
    arith,
    effectful_at-set s.functions c v f callee span e,
    effectful_at-elem s.functions c f e,
    Memᴰ-cons v c s.worklist,
  )
]

-- The inner loop makes exactly the callers effectful.
pub relax_all-effectful :
    (callee : ℕ) (s : State) (calls : List (ℕ × Span)) (v : ℕ)
    → (effectful_at (relax_all callee s calls).functions v ≡ true)
      ↔ ((effectful_at s.functions v ≡ true) ⊎ (Caller v calls × (v < length s.functions)))
unfolding relax_all
relax_all-effectful callee s [] v = ground arith
relax_all-effectful callee s ((c, span) ∷ calls) v = ground (
  arith,
  relax-effectful callee s c span v,
  relax-Conserves callee s c span,
  relax_all-effectful callee (relax callee s (c, span)) calls v,
)

-- The inner loop puts on the work list exactly what it makes effectful.
pub relax_all-worklist :
    (callee : ℕ) (s : State) (calls : List (ℕ × Span)) (v : ℕ)
    → Memᴰ v (relax_all callee s calls).worklist ↔ (
        Memᴰ v s.worklist
        ⊎ ((effectful_at (relax_all callee s calls).functions v ≡ true)
            × (effectful_at s.functions v ≡ false)))
unfolding relax_all
relax_all-worklist callee s [] v = ground arith
relax_all-worklist callee s ((c, span) ∷ calls) v = ground (
  arith,
  relax-effectful callee s c span v,
  relax-Conserves callee s c span,
  relax-worklist callee s c span v,
  relax_all-effectful callee (relax callee s (c, span)) calls v,
  relax_all-worklist callee (relax callee s (c, span)) calls v,
)
