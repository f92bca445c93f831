-- ===== src/Parser/Trace.antt =====
-- What a step of the parser does to the tokens and to the calls of the tree builder.
use asatsuyu.Base.{
  ℕ, suc, ◌+◌, ◌≤◌, ◌≡◌, ◌≢◌, refl, ◌∙◌, Bool, true, false, List, [], ◌∷◌, length, arith, Option,
  some, none,
}
use native.Mathlib.Nat.{zero-add, suc-add}
use asatsuyu.Syntax.Kind.{SyntaxKind, same_kind, is_trivia, eof, r_brace}
use asatsuyu.Syntax.Diagnostic.{Diagnostic}
use asatsuyu.Lexer.{Token}
use asatsuyu.Parser.State.{Event, token, start, start_at, finish, Parser}
use asatsuyu.Parser.Monad.{M, Outcome, out_of_fuel, panic, ok}

-- The tokens handed to the builder, in order, followed by others.
abbrev pub tokens_from : List Event → List Token → List Token
tokens_from [] ts = ts
tokens_from (token t ∷ es) ts = tokens_from es (t ∷ ts)
tokens_from (start _ ∷ es) ts = tokens_from es ts
tokens_from (start_at _ _ ∷ es) ts = tokens_from es ts
tokens_from (finish ∷ es) ts = tokens_from es ts

-- All tokens of the input: those handed on, and the rest.
abbrev pub all_tokens : Parser → List Token
all_tokens p = tokens_from p.events p.rest

-- The last token handed to the builder that is no trivia; the end kind if there is none.
abbrev pub last_kind : List Event → SyntaxKind
last_kind [] = eof
last_kind (token t ∷ es) = elim (is_trivia t.kind) [ true ↦ last_kind es | false ↦ t.kind ]
last_kind (start _ ∷ es) = last_kind es
last_kind (start_at _ _ ∷ es) = last_kind es
last_kind (finish ∷ es) = last_kind es

-- The last kind before the end of the input, trivia left aside, given the kind before.
abbrev pub end_kind : SyntaxKind → List Token → SyntaxKind
end_kind k [] = k
end_kind k (t ∷ ts) = elim (is_trivia t.kind) [
  | true ↦ end_kind k ts
  | false ↦ elim (same_kind t.kind eof) [ true ↦ k | false ↦ end_kind t.kind ts ]
]

abbrev pub closing : Parser → SyntaxKind
closing p = end_kind (last_kind p.events) p.rest

-- The number of end tokens.
abbrev pub end_tokens : List Token → ℕ
end_tokens [] = 0
end_tokens (t ∷ ts) = elim (same_kind t.kind eof) [
  | true ↦ suc (end_tokens ts)
  | false ↦ end_tokens ts
]

-- The second list of calls extends the first by calls that open `d` nodes more than they close and
-- that close no node opened before. A checkpoint was taken at the depth at which it is used.
pub data Nest : List Event → List Event → ℕ → Type 0 where
  same : {o : List Event} → Nest o o 0
  add_token : {o es : List Event} {d : ℕ} {t : Token} → Nest o es d → Nest o (token t ∷ es) d
  add_start :
      {o es : List Event} {d : ℕ} {k : SyntaxKind} → Nest o es d → Nest o (start k ∷ es) (suc d)
  add_start_at :
      {o es : List Event} {d : ℕ} {k : SyntaxKind} (at : List Event) {c : ℕ}
      → Nest at es 0
      → c ≡ length at
      → Nest o es d
      → Nest o (start_at c k ∷ es) (suc d)
  add_finish : {o es : List Event} {d : ℕ} → Nest o es (suc d) → Nest o (finish ∷ es) d

-- Calls that close what they open keep the depth.
pub Nest-trans : {e f g : List Event} {d n : ℕ} → Nest e f d → Nest f g n → Nest e g (n + d)
Nest-trans a same = rw (zero-add _) a
Nest-trans a (add_token b) = add_token (Nest-trans a b)
Nest-trans {d = d} a (add_start {d = n} b) = rw (suc-add n d) (add_start (Nest-trans a b))
Nest-trans {d = d} a (add_start_at {d = n} at b e c) =
    rw (suc-add n d) (add_start_at at b e (Nest-trans a c))
Nest-trans {d = d} a (add_finish {d = n} b) = add_finish (rw (← suc-add n d) (Nest-trans a b))

-- What holds of a parser that is reached from another by consuming at least `n` tokens, with `d`
-- nodes open; if it is no shorter, its
-- rest is the same, and end tokens are not consumed.
pub record At (o : Parser) (n d : ℕ) (p : Parser) : Type 0 where
  pub all : all_tokens p ≡ all_tokens o
  pub closes : closing p ≡ closing o
  pub size : p.pos + length p.rest ≡ o.pos + length o.rest
  pub used : n + length p.rest ≤ length o.rest
  pub still : length o.rest ≤ length p.rest → p.rest ≡ o.rest
  pub eofs : end_tokens p.rest ≡ end_tokens o.rest
  pub nest : Nest o.events p.events d

pub At-here : (p : Parser) → At p 0 0 p
At-here p = record {
  all = refl;
  closes = refl;
  size = refl;
  used = omega arith;
  still = λ _. refl;
  eofs = refl;
  nest = same;
}

pub At-trans : {o p q : Parser} {n m d : ℕ} → At o n d p → At p m 0 q → At o (n + m) d q
At-trans {d = d} a b = record {
  all = b.all ∙ a.all;
  closes = b.closes ∙ a.closes;
  size = b.size ∙ a.size;
  used = let x = a.used in let y = b.used in omega arith;
  still = λ h. let x = a.used in let y = b.used in b.still (omega arith) ∙ a.still (omega arith);
  eofs = b.eofs ∙ a.eofs;
  nest = rw (← zero-add d) (Nest-trans a.nest b.nest);
}

pub At-weaken : {o p : Parser} {n d : ℕ} (m : ℕ) → m ≤ n → At o n d p → At o m d p
At-weaken m h a = record {
  all = a.all;
  closes = a.closes;
  size = a.size;
  used = let x = a.used in omega arith;
  still = a.still;
  eofs = a.eofs;
  nest = a.nest;
}

-- A run from `o` that ends well: it does not run out of fuel, it panics only if the input does not
-- end with a closing brace, and it consumes at least `n` tokens and leaves what `Q` says.
pub data Good {A : Type 0} (o : Parser) (n d : ℕ) (Q : A → Parser → Type 0)
    : Outcome A → Type 0 where
  panics : closing o ≢ r_brace → Good o n d Q panic
  ends : {x : A} {q : Parser} → At o n d q → Q x q → Good o n d Q (ok x q)

abbrev pub Any : {A : Type 0} → A → Parser → Type 0
Any x q = Unit {0}

-- Run a step from `p` and go on from where it ends.
pub seq :
    {A B : Type 0} {o p : Parser} {n m k d d' : ℕ} {R : A → Parser → Type 0}
    {Q : B → Parser → Type 0} {f : A → M B} {r : Outcome A}
    → At o n d p
    → Good p m 0 R r
    → ((x : A) (q : Parser) → At o (n + m) d q → R x q → Good o k d' Q (f x q))
    → Good o k d' Q (elim r [ out_of_fuel ↦ out_of_fuel | panic ↦ panic | ok x q ↦ f x q ])
seq a (panics e) h = panics (λ c. e (a.closes ∙ c))
seq a (ends {x} {q} b r) h = h x q (At-trans a b) r

-- A step that is the last one.
pub last_step :
    {A : Type 0} {o p : Parser} {n m k : ℕ} {R Q : A → Parser → Type 0} {r : Outcome A}
    → At o n 0 p
    → k ≤ n + m
    → Good p m 0 R r
    → ((x : A) (q : Parser) → At o (n + m) 0 q → R x q → Q x q)
    → Good o k 0 Q r
last_step a h (panics e) to = panics (λ c. e (a.closes ∙ c))
last_step {k = k} a h (ends {x} {q} b r) to =
    ends (At-weaken k h (At-trans a b)) (to x q (At-trans a b) r)

-- A test with both of its outcomes.
pub split :
    {A : Type 0} {o : Parser} {n d : ℕ} {Q : A → Parser → Type 0} {r s : Outcome A} (b : Bool)
    → (b ≡ true → Good o n d Q r)
    → (b ≡ false → Good o n d Q s)
    → Good o n d Q (elim b [ true ↦ r | false ↦ s ])
split true t f = t refl
split false t f = f refl

-- Opening a node, and closing it.
pub At-start :
    {o p : Parser} {n d : ℕ} (k : SyntaxKind)
    → At o n d p
    → At o n (suc d) (record p { events = start k ∷ p.events })
At-start k a = record {
  all = a.all;
  closes = a.closes;
  size = a.size;
  used = a.used;
  still = a.still;
  eofs = a.eofs;
  nest = add_start a.nest;
}

pub At-start_at :
    {o p : Parser} {n d : ℕ} (at : List Event) (c : ℕ) (k : SyntaxKind)
    → Nest at p.events 0
    → c ≡ length at
    → At o n d p
    → At o n (suc d) (record p { events = start_at c k ∷ p.events })
At-start_at at c k b e a = record {
  all = a.all;
  closes = a.closes;
  size = a.size;
  used = a.used;
  still = a.still;
  eofs = a.eofs;
  nest = add_start_at at b e a.nest;
}

pub At-finish :
    {o p : Parser} {n d : ℕ} → At o n (suc d) p → At o n d (record p { events = finish ∷ p.events })
At-finish a = record {
  all = a.all;
  closes = a.closes;
  size = a.size;
  used = a.used;
  still = a.still;
  eofs = a.eofs;
  nest = add_finish a.nest;
}

pub At-report :
    {o p : Parser} {n d : ℕ} (ds : List Diagnostic)
    → At o n d p
    → At o n d (record p { diagnostics = ds })
At-report ds a = record {
  all = a.all;
  closes = a.closes;
  size = a.size;
  used = a.used;
  still = a.still;
  eofs = a.eofs;
  nest = a.nest;
}

-- The end of a rule: its node is closed and at least `k` tokens are consumed.
pub finished :
    {o p : Parser} {n k : ℕ}
    → k ≤ n
    → At o n 1 p
    → Good o k 0 Any (ok tt (record p { events = finish ∷ p.events }))
finished {k = k} h a = ends (At-weaken k h (At-finish a)) tt

-- A last step whose result does not matter.
pub last_any :
    {A : Type 0} {o p : Parser} {n m : ℕ} {R : A → Parser → Type 0} {r : Outcome A}
    → At o n 0 p
    → Good p m 0 R r
    → Good o 0 0 Any r
last_any a g = last_step a (omega arith) g (λ x q b h. tt)

-- A step that is made where a test holds, and one of two steps.
pub optional :
    {p : Parser} {r : Outcome (Unit {0})} (b : Bool)
    → (b ≡ true → Good p 0 0 Any r)
    → Good p 0 0 Any (elim b [ true ↦ r | false ↦ ok tt p ])
optional b t = split b t (λ f. ends (At-here _) tt)

pub choice :
    {A : Type 0} {p : Parser} {r s : Outcome A} (b : Bool)
    → (b ≡ true → Good p 0 0 Any r)
    → (b ≡ false → Good p 0 0 Any s)
    → Good p 0 0 Any (elim b [ true ↦ r | false ↦ s ])
choice b t f = split b t f

-- Nothing is left to do.
pub ended : {A : Type 0} {o p : Parser} {n : ℕ} {x : A} → At o n 0 p → Good o 0 0 Any (ok x p)
ended a = ends (At-weaken 0 (omega arith) a) tt

-- An optional value with both of its cases.
pub split_option :
    {A B : Type 0} {p : Parser} (f : B → M A) (g : M A) (o : Option B)
    → ((b : B) → o ≡ some b → Good p 0 0 Any (f b p))
    → (o ≡ none → Good p 0 0 Any (g p))
    → let step : M A = elim o [ some b ↦ f b | none ↦ g ] in Good p 0 0 Any (step p)
split_option f g (some b) t h = t b refl
split_option f g none t h = h refl
