-- ===== src/Parser/TokenSet.antt =====
-- The bit sets of kinds in asatsuyu/crates/asatsuyu-parser/src/parser.rs: a `u128`, of which 103
-- bits are used, so no shift leaves it.
pub mod Laws
use Prim.Native.Nat.{bit_or}
use asatsuyu.Base.{ℕ, zero, suc, ◌+◌, ◌/◌, ◌%◌, ◌^◌, Bool, true, false, List, [], ◌∷◌, ◌==◌}
use asatsuyu.Syntax.Kind.{
  SyntaxKind, to_u16, fn_kw, pub_kw, type_kw, let_kw, import_kw, from_kw, async_kw, pure_kw,
  r_paren, r_brace, r_bracket, underscore, int_lit, float_lit, string_lit, true_kw, false_kw, ident,
  l_bracket, minus, bang, l_paren, if_kw, match_kw, try_kw, await_kw,
}

abbrev pub TokenSet : Type 0
TokenSet = ℕ

abbrev pub empty : TokenSet
empty = 0

-- The loop of `TokenSet::new` from the kinds that are left.
unfoldable pub insert_all : TokenSet → List SyntaxKind → TokenSet
insert_all bits [] = bits
insert_all bits (kind ∷ kinds) = insert_all (bit_or bits (2 ^ to_u16 kind)) kinds

unfoldable pub new_set : List SyntaxKind → TokenSet
unfolding insert_all
new_set kinds = insert_all empty kinds

unfoldable pub union : TokenSet → TokenSet → TokenSet
union a b = bit_or a b

-- `bits & (1 << n) != 0`: the bit that `n` halvings bring to the end.
unfoldable pub test_bit : ℕ → ℕ → Bool
test_bit bits zero = bits % 2 == 1
test_bit bits (suc n) = test_bit (bits / 2) n

unfoldable pub contains : TokenSet → SyntaxKind → Bool
unfolding test_bit
contains set kind = test_bit set (to_u16 kind)

-- `TOP_LEVEL_RECOVERY`
unfoldable pub top_level_recovery : TokenSet
unfolding new_set
top_level_recovery =
    new_set (fn_kw ∷ pub_kw ∷ type_kw ∷ let_kw ∷ import_kw ∷ from_kw ∷ async_kw ∷ pure_kw ∷ [])

-- `CLOSING_DELIMITERS`
unfoldable pub closing_delimiters : TokenSet
unfolding new_set
closing_delimiters = new_set (r_paren ∷ r_brace ∷ r_bracket ∷ [])

-- `EXPR_START`
unfoldable pub expr_start : TokenSet
unfolding new_set
expr_start = new_set (
    minus ∷ bang ∷ l_paren ∷ if_kw ∷ match_kw ∷ fn_kw ∷ try_kw ∷ await_kw ∷ l_bracket ∷ int_lit
    ∷ float_lit ∷ string_lit ∷ true_kw ∷ false_kw ∷ ident ∷ [])

-- `PATTERN_START`
unfoldable pub pattern_start : TokenSet
unfolding new_set
pattern_start =
    new_set
      (underscore ∷ int_lit ∷ float_lit ∷ string_lit ∷ true_kw ∷ false_kw ∷ ident ∷ l_bracket ∷ [])
