-- ===== src/Parser/TokenSet/Laws.antt =====
-- Token sets as sets of kinds.
use Prim.Native.Nat.{max, digits, bit_or, bit_or-bitwise}
use Prim.Native.Nat.pow
use asatsuyu.Base.{
  ℕ, zero, suc, ◌+◌, ◌*◌, ◌/◌, ◌%◌, ◌^◌, ◌≤◌, ◌≡◌, refl, ap, ◌∙◌, Bool, false, ◌||◌, List, [], ◌∷◌,
  any, ◌==◌, arith,
}
use asatsuyu.Syntax.Kind.{SyntaxKind, to_u16, same_kind}
use asatsuyu.Parser.TokenSet.{TokenSet, empty, insert_all, new_set, union, test_bit, contains}

-- The digit recursion that the native operation stands for does not depend on its fuel.
abbrev or_digits : ℕ → ℕ → ℕ → ℕ
or_digits n a b = digits (λ b. b) max n a b

or_digits_fuel : (n m a b : ℕ) → a ≤ n → a ≤ m → or_digits n a b ≡ or_digits m a b
or_digits_fuel zero zero a b p q = refl
or_digits_fuel zero (suc m) zero b p q = refl
or_digits_fuel zero (suc m) (suc a) b p q = absurd (omega arith)
or_digits_fuel (suc n) zero zero b p q = refl
or_digits_fuel (suc n) zero (suc a) b p q = absurd (omega arith)
or_digits_fuel (suc n) (suc m) zero b p q = refl
or_digits_fuel (suc n) (suc m) (suc a) b p q =
    omega (arith, or_digits_fuel n m (suc a / 2) (b / 2) (omega arith) (omega arith))

zero-bit_or : (b : ℕ) → bit_or 0 b ≡ b
zero-bit_or b = bit_or-bitwise 0 b

bit_or_step : (a b : ℕ) → bit_or a b ≡ bit_or (a / 2) (b / 2) * 2 + max (a % 2) (b % 2)
bit_or_step zero b = omega (arith, zero-bit_or b, zero-bit_or (b / 2))
bit_or_step (suc a) b = omega (
  arith,
  bit_or-bitwise (suc a) b,
  bit_or-bitwise (suc a / 2) (b / 2),
  or_digits_fuel a (suc a / 2) (suc a / 2) (b / 2) (omega arith) (omega arith),
)

bit_or-div : (a b : ℕ) → bit_or a b / 2 ≡ bit_or (a / 2) (b / 2)
bit_or-div a b = omega (arith, bit_or_step a b)

test_bit-bit_or : (a b n : ℕ) → test_bit (bit_or a b) n ≡ (test_bit a n || test_bit b n)
unfolding test_bit
test_bit-bit_or a b zero = ground (arith, bit_or_step a b)
test_bit-bit_or a b (suc n) = rw (bit_or-div a b) (test_bit-bit_or (a / 2) (b / 2) n)

zero-test_bit : (n : ℕ) → test_bit 0 n ≡ false
unfolding test_bit
zero-test_bit zero = refl
zero-test_bit (suc n) = zero-test_bit n

pow_step : (k : ℕ) → (2 ^ suc k % 2 ≡ 0) × (2 ^ suc k / 2 ≡ 2 ^ k)
pow_step k = (omega (arith, pow.suc 2 k), omega (arith, pow.suc 2 k))

test_bit-pow : (k n : ℕ) → test_bit (2 ^ k) n ≡ (k == n)
unfolding test_bit
test_bit-pow zero zero = refl
test_bit-pow zero (suc n) = ground (arith, zero-test_bit n)
test_bit-pow (suc k) zero = ground (arith, pow_step k)
test_bit-pow (suc k) (suc n) = rw (pow_step k).1 (ground (arith, test_bit-pow k n))

-- A union contains the kinds of both sets.
pub contains-union :
    (a b : TokenSet) (kind : SyntaxKind)
    → contains (union a b) kind ≡ (contains a kind || contains b kind)
unfolding contains union
contains-union a b kind = test_bit-bit_or a b (to_u16 kind)

regroup : (a b c d : Bool) → d ≡ (a || b) → (d || c) ≡ (a || (b || c))
regroup a b c d h = ground arith

test_bit-insert : (bits k n : ℕ) → test_bit (bit_or bits (2 ^ k)) n ≡ (test_bit bits n || (k == n))
test_bit-insert bits k n = ground (arith, test_bit-bit_or bits (2 ^ k) n, test_bit-pow k n)

or-false : (a : Bool) → a ≡ (a || false)
or-false a = ground arith

contains-insert_all :
    (bits : TokenSet) (kinds : List SyntaxKind) (kind : SyntaxKind)
    → contains (insert_all bits kinds) kind
      ≡ (contains bits kind || any (λ k. same_kind k kind) kinds)
unfolding contains insert_all
contains-insert_all bits [] kind = or-false (test_bit bits (to_u16 kind))
contains-insert_all bits (k ∷ kinds) kind =
    contains-insert_all (bit_or bits (2 ^ to_u16 k)) kinds kind
    ∙ regroup _ _ _ _ (test_bit-insert bits (to_u16 k) (to_u16 kind))

-- A set that is built from kinds contains those kinds and no other.
pub contains-new_set :
    (kinds : List SyntaxKind) (kind : SyntaxKind)
    → contains (new_set kinds) kind ≡ any (λ k. same_kind k kind) kinds
unfolding new_set contains
contains-new_set kinds kind =
    contains-insert_all empty kinds kind
    ∙ ap (λ b. b || any (λ k. same_kind k kind) kinds) (zero-test_bit (to_u16 kind))
