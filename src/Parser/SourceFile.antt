-- ===== src/Parser/SourceFile.antt =====
-- What parsing a whole file promises: `parse_source_file` of grammar.rs on the tokens of the lexer.
use mathlib.Core.Path.{subst}
use asatsuyu.Base.{
  ℕ, ◌≡◌, ◌≢◌, refl, ap, ◌∙◌, sym, true, List, [], ◌∷◌, ◌++◌, map, arith, all, inl, inr, Bool-cases,
}
use asatsuyu.Syntax.Kind.{same_kind, eof, r_brace}
use asatsuyu.Lexer.{Token, Piece, lex, lex_pieces, eof_token}
use asatsuyu.Lexer.Partition.{not_end, lex_pieces-not_end, lex_pieces-text}
use asatsuyu.Parser.State.{Event, token, start, start_at, finish, Parser, nth_kind}
use asatsuyu.Parser.Monad.{Outcome, out_of_fuel, panic, ok}
use asatsuyu.Parser.Core.{new_parser}
use asatsuyu.Parser.Grammar.TopLevel.{enough_fuel, parse_source_file}
use asatsuyu.Parser.Trace.{tokens_from, end_kind, end_tokens, Nest, Good, panics, ends}
use asatsuyu.Parser.Steps.{NoTriviaFirst}
use asatsuyu.Parser.Rules.ItemRules.FileRules.{Whole, parse_source_file-Good}

-- `parse_source_file` on the tokens of a file, with the fuel that `parse` gives it.
abbrev pub run : List Token → ℕ → ℕ → Outcome (Unit {0})
run tokens file_id last_end =
    parse_source_file (enough_fuel tokens) (new_parser tokens file_id last_end)

run-Good :
    (tokens : List Token) (file_id last_end : ℕ)
    → Good (new_parser tokens file_id last_end) 0 0 (λ _ q. Whole q) (run tokens file_id last_end)
run-Good tokens file_id last_end = parse_source_file-Good (enough_fuel tokens) _ (omega arith)

-- What is known of the parser at the end.
record Parsed (tokens : List Token) (q : Parser) : Type 0 where
  all : tokens_from q.events q.rest ≡ tokens
  eofs : end_tokens q.rest ≡ end_tokens tokens
  nest : Nest [] q.events 0
  whole : Whole q

state : {A : Type 0} → Parser → Outcome A → Parser
state p r = elim r [ out_of_fuel ↦ p | panic ↦ p | ok _ q ↦ q ]

parsed :
    {tokens : List Token} {file_id last_end : ℕ} {r : Outcome (Unit {0})} (q : Parser)
    → Good (new_parser tokens file_id last_end) 0 0 (λ _ q. Whole q) r
    → r ≡ ok tt q
    → Parsed tokens q
unfolding state
parsed q (panics h) e = absurd (cc e)
parsed {tokens} q (ends {q = p} a w) e =
    subst (Parsed tokens) (ap (state q) e)
      (record { all = a.all; eofs = a.eofs; nest = a.nest; whole = w })

run-Parsed :
    (tokens : List Token) (file_id last_end : ℕ) (q : Parser)
    → run tokens file_id last_end ≡ ok tt q
    → Parsed tokens q
run-Parsed tokens file_id last_end q e = parsed q (run-Good tokens file_id last_end) e

-- For every sequence of tokens, eight calls for each token and eight more are enough for the parser
-- to end: it returns or fails at an assertion.
pub parse_source_file-terminates :
    (tokens : List Token) (file_id last_end : ℕ) → run tokens file_id last_end ≢ out_of_fuel
parse_source_file-terminates tokens file_id last_end e = stuck (run-Good tokens file_id last_end) e
  where
    stuck :
        {r : Outcome (Unit {0})}
        → Good (new_parser tokens file_id last_end) 0 0 (λ _ q. Whole q) r
        → r ≢ out_of_fuel
    stuck (panics h) c = cc c
    stuck (ends a w) c = cc c

-- If, among the tokens before the first end token, the last one that is not trivia is a closing
-- brace, no assertion of the parser fails: it returns.
pub parse_source_file-returns :
    (tokens : List Token) (file_id last_end : ℕ)
    → end_kind eof tokens ≡ r_brace
    → (q : Parser) × (run tokens file_id last_end ≡ ok tt q)
parse_source_file-returns tokens file_id last_end h = returned (run-Good tokens file_id last_end)
  where
    returned :
        {r : Outcome (Unit {0})}
        → Good (new_parser tokens file_id last_end) 0 0 (λ _ q. Whole q) r
        → (q : Parser) × (r ≡ ok tt q)
    returned (panics c) = absurd (c h)
    returned (ends {q = q} a w) = (q, refl)

-- Where the parser returns, the calls of the tree builder are well nested: every node that is
-- opened is closed, no call closes a node that is not open, and a node that is opened at a
-- checkpoint starts where the calls since then close what they opened.
pub parse_source_file-Nest :
    (tokens : List Token) (file_id last_end : ℕ) (q : Parser)
    → run tokens file_id last_end ≡ ok tt q
    → Nest [] q.events 0
parse_source_file-Nest tokens file_id last_end q e = (run-Parsed tokens file_id last_end q e).nest

append_assoc : (xs ys zs : List Token) → (xs ++ ys) ++ zs ≡ xs ++ (ys ++ zs)
append_assoc [] ys zs = refl
append_assoc (x ∷ xs) ys zs = ap (λ l. x ∷ l) (append_assoc xs ys zs)

tokens_from-append :
    (es : List Event) (ts : List Token) → tokens_from es ts ≡ tokens_from es [] ++ ts
tokens_from-append [] ts = refl
tokens_from-append (token t ∷ es) ts =
    tokens_from-append es (t ∷ ts)
    ∙ sym (append_assoc (tokens_from es []) (t ∷ []) ts)
    ∙ ap (λ l. l ++ ts) (sym (tokens_from-append es (t ∷ [])))
tokens_from-append (start k ∷ es) ts = tokens_from-append es ts
tokens_from-append (start_at c k ∷ es) ts = tokens_from-append es ts
tokens_from-append (finish ∷ es) ts = tokens_from-append es ts

append-not_nil : (ys ts : List Token) (t : Token) → ys ++ t ∷ ts ≢ []
append-not_nil [] ts t p = cc p
append-not_nil (y ∷ ys) ts t p = cc p

-- Before an end token that stands alone at the end of a list there is no other.
only_end :
    (ys xs ts : List Token) (t e : Token)
    → all not_end xs ≡ true
    → same_kind t.kind eof ≡ true
    → ys ++ t ∷ ts ≡ xs ++ e ∷ []
    → ys ≡ xs
only_end [] [] ts t e h n p = refl
only_end [] (x ∷ xs) ts t e h n p =
    let here : t ≡ x = cc p in
    let kind : same_kind x.kind eof ≡ true =
      ap (λ (u : Token). same_kind u.kind eof) (sym here) ∙ n in
    absurd (ground (arith, h, kind))
only_end (y ∷ ys) [] ts t e h n p = absurd (append-not_nil ys ts t (cc p))
only_end (y ∷ ys) (x ∷ xs) ts t e h n p =
    let later : ys ≡ xs = only_end ys xs ts t e (ground (arith, h)) n (cc p) in
    let here : y ≡ x = cc p in cc (later, here)

-- A rest that begins with the end token, or is empty.
end_tokens-append :
    (xs : List Token) (e : Token) → same_kind e.kind eof ≡ true → end_tokens (xs ++ e ∷ []) ≢ 0
end_tokens-append [] e h p = absurd (cc (rw (h, end_tokens) at p))
end_tokens-append (x ∷ xs) e h p = absurd (elim (Bool-cases (same_kind x.kind eof)) [
  | inl c ↦ cc (rw (c, end_tokens) at p)
  | inr c ↦ end_tokens-append xs e h (rw (c, end_tokens) at p)
])

handed_on :
    (r xs : List Token) (es : List Event) (e : Token)
    → tokens_from es r ≡ xs ++ e ∷ []
    → end_tokens r ≡ end_tokens (xs ++ e ∷ [])
    → same_kind e.kind eof ≡ true
    → all not_end xs ≡ true
    → NoTriviaFirst r
    → same_kind (nth_kind r 0) eof ≡ true
    → tokens_from es [] ≡ xs
handed_on [] xs es e a c k n h w = absurd (end_tokens-append xs e k (sym c))
handed_on (t ∷ ts) xs es e a c k n h w =
    only_end (tokens_from es []) xs ts t e n (rw (h, nth_kind) at w)
      (sym (tokens_from-append es (t ∷ ts)) ∙ a)

-- The tree is lossless: where the parser returns on the tokens of the lexer, it has handed each token but the
-- end token to the builder once and in order, so that their texts are those of the pieces of the
-- source, whether or not there are errors.
pub parse_source_file-lossless :
    (file_id source_len last_end : ℕ) (pieces : List Piece) (q : Parser)
    → run (lex file_id pieces source_len).0 file_id last_end ≡ ok tt q
    → (tokens_from q.events [] ≡ (lex_pieces file_id pieces).0)
      × (map (λ (t : Token). t.text) (tokens_from q.events [])
          ≡ map (λ (p : Piece). p.slice) pieces)
unfolding lex
parse_source_file-lossless file_id source_len last_end pieces q e =
    let done = run-Parsed (lex file_id pieces source_len).0 file_id last_end q e in
    let same =
      handed_on q.rest (lex_pieces file_id pieces).0 q.events (eof_token file_id source_len)
        done.all done.eofs refl (lex_pieces-not_end file_id pieces) done.whole.head
        done.whole.end in
    (same, ap (map (λ (t : Token). t.text)) same ∙ lex_pieces-text file_id pieces)
