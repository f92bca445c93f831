-- ===== src/Syntax/Kind/Laws.antt =====
-- The conversions between kinds and `u16` values of syntax_kind.rs.
use asatsuyu.Base.{
  ℕ, zero, suc, ◌+◌, ◌<◌, ◌≤◌, ◌≡◌, refl, ap, ◌↔◌, some, List, [], ◌∷◌, arith, get_elem?, ltb,
  lt→ltb, ltb→lt, Bool-cases, inl, inr, ==_iff, true,
}
use asatsuyu.Syntax.Kind.{SyntaxKind, same_kind, last, to_u16, from_u16, variants}

abbrev IsNumbered : ℕ → List SyntaxKind → Type 0
IsNumbered base [] = Unit
IsNumbered base (k ∷ ks) = (to_u16 k ≡ base) × IsNumbered (suc base) ks

get_elem?-IsNumbered :
    (base : ℕ) (ks : List SyntaxKind) (i : ℕ) (k : SyntaxKind)
    → IsNumbered base ks
    → get_elem? ks i ≡ some k
    → to_u16 k ≡ base + i
get_elem?-IsNumbered base [] i k n h = ground arith
get_elem?-IsNumbered base (x ∷ ks) zero k n h = ground arith
get_elem?-IsNumbered base (x ∷ ks) (suc i) k n h =
    omega (arith, get_elem?-IsNumbered (suc base) ks i k n.1 h)

variants-IsNumbered : IsNumbered 0 variants
variants-IsNumbered = omega arith

from_u16-to_u16 : (k : SyntaxKind) → to_u16 k < 102 → from_u16 (to_u16 k) ≡ some k
unfolding from_u16
from_u16-to_u16 last h = absurd (omega arith)
from_u16-to_u16 _ h = refl

below_last : (raw : ℕ) (k : SyntaxKind) → from_u16 raw ≡ some k → raw < 102
unfolding from_u16
below_last raw k h = ground arith

from_u16_sound : (raw : ℕ) (k : SyntaxKind) → from_u16 raw ≡ some k → to_u16 k ≡ raw
unfolding from_u16
from_u16_sound raw k h =
    let t = lt→ltb raw 102 (below_last raw k h) in
    omega (arith, get_elem?-IsNumbered 0 variants raw k variants-IsNumbered (rw t at h))

-- `From<u16>` gives a kind exactly for the values below `__LAST`, and then the one kind with that
-- value, so converting to `u16` and back is the identity.
pub from_u16_iff :
    (raw : ℕ) (k : SyntaxKind) → (from_u16 raw ≡ some k) ↔ ((to_u16 k ≡ raw) × (raw < 102))
from_u16_iff raw k = (
  λ h. (from_u16_sound raw k h, below_last raw k h),
  λ (e, lt). rw (← e) (from_u16-to_u16 k (omega arith)),
)

eq_last : (k : SyntaxKind) → 102 ≤ to_u16 k → k ≡ last
eq_last last h = refl
eq_last _ h = absurd (omega arith)

pub to_u16_injective : (j k : SyntaxKind) → to_u16 j ≡ to_u16 k → j ≡ k
to_u16_injective j k e = elim (Bool-cases (ltb (to_u16 j) 102)) [
  | inl t ↦
      let p = from_u16-to_u16 j (ltb→lt _ _ t) in
      let q = from_u16-to_u16 k (omega (arith, ltb→lt _ _ t)) in cc (p, q, ap from_u16 e)
  | inr f ↦ cc (eq_last j (ground arith), eq_last k (ground arith))
]

pub same_kind-eq : (a b : SyntaxKind) → same_kind a b ≡ true → a ≡ b
same_kind-eq a b h = to_u16_injective a b ((==_iff (to_u16 a) (to_u16 b)).0 h)
