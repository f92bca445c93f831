-- ===== src/Parser/Monad.antt =====
-- A parsing function takes the parser and leaves a new one, or it panics at an assertion of the
-- source, or its fuel runs out.
use asatsuyu.Base.{Bool, true, false}
use asatsuyu.Parser.State.{Parser}

pub data Outcome (A : Type 0) : Type 0 where
  out_of_fuel : Outcome A
  panic : Outcome A
  ok : A → Parser → Outcome A

abbrev pub M : Type 0 → Type 0
M A = Parser → Outcome A

infixl 5 ◌>>=◌ ◌>>◌
abbrev pub ◌>>=◌ : {A B : Type 0} → M A → (A → M B) → M B
◌>>=◌ m f p = elim (m p) [ out_of_fuel ↦ out_of_fuel | panic ↦ panic | ok x q ↦ f x q ]

abbrev pub ◌>>◌ : {A B : Type 0} → M A → M B → M B
m >> k = m >>= λ _. k

abbrev pub pure : {A : Type 0} → A → M A
pure x p = ok x p

abbrev pub done : M (Unit {0})
done p = ok tt p

abbrev pub no_fuel : {A : Type 0} → M A
no_fuel p = out_of_fuel

-- A query on the parser.
abbrev pub ask : {A : Type 0} → (Parser → A) → M A
ask f p = ok (f p) p

-- `if` with one branch: a step that is made where the test holds of the parser.
abbrev pub when : (Parser → Bool) → M (Unit {0}) → M (Unit {0})
when test m p = elim (test p) [ true ↦ m p | false ↦ ok tt p ]

-- `if` with two branches.
abbrev pub branch : {A : Type 0} → (Parser → Bool) → M A → M A → M A
branch test m k p = elim (test p) [ true ↦ m p | false ↦ k p ]
