-- ===== src/Parser/EndOfInput.antt =====
-- The assertion of `bump` in asatsuyu/crates/asatsuyu-parser/src/parser.rs, and where the rules for expressions meet
-- it.
use mathlib.Core.Path.{subst}
use asatsuyu.Base.{
  ℕ, suc, ◌≡◌, ◌≢◌, refl, ap, ◌∙◌, sym, true, false, ◌↔◌, List, [], ◌∷◌, ◌++◌, String, inl, inr,
  Bool-cases,
}
use asatsuyu.Syntax.Kind.{same_kind, eof, node_error}
use asatsuyu.Syntax.Kind.Laws.{same_kind-eq}
use asatsuyu.Syntax.Diagnostic.{DiagnosticCode, e0055, with_label, with_code, error_at}
use asatsuyu.Lexer.{Token}
use asatsuyu.Parser.State.{start, finish, Parser, at_eof, current, current_span, nth_kind}
use asatsuyu.Parser.Monad.{M, Outcome, out_of_fuel, panic, ok}
use asatsuyu.Parser.Core.{eat_loop, eat_trivia, take_token, bump, error_and_bump}
use asatsuyu.Parser.Grammar.Exprs.{parse_expr_bp, expr_atom}
use asatsuyu.Parser.Steps.{NoTriviaFirst, eat_loop-Eaten}

abbrev first_of : Parser → List Token → Outcome (Unit {0})
first_of p r = elim r [
  | [] ↦ panic
  | t ∷ ts ↦ elim (same_kind t.kind eof) [ true ↦ panic | false ↦ ok tt (take_token t ts p) ]
]

first_of-end :
    (p : Parser) (r : List Token)
    → NoTriviaFirst r
    → same_kind (nth_kind r 0) eof ≡ true
    → first_of p r ≡ panic
first_of-end p [] h e = refl
first_of-end p (t ∷ ts) h e = rw (rw (h, nth_kind) at e, first_of) refl

first_of-ok :
    (p : Parser) (r : List Token)
    → NoTriviaFirst r
    → same_kind (nth_kind r 0) eof ≡ false
    → first_of p r ≢ panic
first_of-ok p [] h e c = cc e
first_of-ok p (t ∷ ts) h e c = cc (rw (rw (h, nth_kind) at e, first_of) at c)

-- `bump` fails at its assertion exactly at the end of the input.
pub bump_panic_iff : (p : Parser) → (bump p ≡ panic) ↔ (at_eof p ≡ true)
unfolding bump eat_trivia
bump_panic_iff p =
    let eaten = eat_loop-Eaten p.rest p refl in
    let q = eat_loop p.rest p in
    (
      λ c. elim (Bool-cases (at_eof p)) [
        | inl e ↦ e
        | inr e ↦
            absurd
              (first_of-ok q q.rest eaten.head (ap (λ k. same_kind k eof) (eaten.ahead 0) ∙ e) c)
      ],
      λ e. first_of-end q q.rest eaten.head (ap (λ k. same_kind k eof) (eaten.ahead 0) ∙ e),
    )

-- What follows a step that fails does not run.
stops :
    {A B : Type 0} (r : Outcome A) (f : A → M B)
    → r ≡ panic
    → elim r [ out_of_fuel ↦ out_of_fuel | panic ↦ panic | ok x q ↦ f x q ] ≡ panic
stops out_of_fuel f e = absurd (cc e)
stops panic f e = refl
stops (ok x q) f e = absurd (cc e)

error_and_bump-panic :
    (message : String) (code : DiagnosticCode) (p : Parser)
    → at_eof p ≡ true
    → error_and_bump message code p ≡ panic
unfolding error_and_bump
error_and_bump-panic message code p e =
    let q : Parser = record p {
      events = start node_error ∷ p.events;
      diagnostics =
          p.diagnostics
          ++ with_label (current_span p) message
              (with_code code (error_at message (current_span p)))
            ∷ [];
    } in
    stops (bump q) (λ _ r. ok tt (record r { events = finish ∷ r.events })) ((bump_panic_iff q).1 e)

expr_atom-panic : (fuel : ℕ) (p : Parser) → at_eof p ≡ true → expr_atom (suc fuel) eof p ≡ panic
unfolding expr_atom
expr_atom-panic fuel p e =
    stops (error_and_bump "expected expression" e0055 p) _
      (error_and_bump-panic "expected expression" e0055 p e)

-- Where an expression is expected and the input has ended, the parser fails at the assertion of
-- `bump` in place of reporting an error.
pub parse_expr_bp-panic :
    (fuel min_bp : ℕ) (p : Parser)
    → at_eof p ≡ true
    → parse_expr_bp (suc (suc fuel)) min_bp p ≡ panic
unfolding parse_expr_bp
parse_expr_bp-panic fuel min_bp p e = stops (expr_atom (suc fuel) (current p) p) _ (
    subst (λ k. expr_atom (suc fuel) k p ≡ panic) (sym (same_kind-eq (current p) eof e))
      (expr_atom-panic fuel p e))
