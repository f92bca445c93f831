-- ===== src/Parser/Rules/ExprRules/MatchRules.antt =====
-- The rules for matches and their arms of asatsuyu/crates/asatsuyu-parser/src/grammar.rs end well,
-- where the rules they call do.
use asatsuyu.Base.{
  ℕ, suc, ◌<◌, ◌≡◌, refl, Bool, true, false, not, ◌&&◌, [], ◌∷◌, length, arith, ◌==◌, ==_iff,
}
use asatsuyu.Syntax.Kind.{
  SyntaxKind, same_kind, eof, r_brace, l_brace, if_kw, arrow, match_arm, match_expr,
}
use asatsuyu.Syntax.Diagnostic.{e0057, e0050, e0056}
use asatsuyu.Parser.TokenSet.{new_set, pattern_start}
use asatsuyu.Parser.State.{Parser, at, at_any, at_eof}
use asatsuyu.Parser.Monad.{out_of_fuel, panic, ok}
use asatsuyu.Parser.Core.{bump, error_and_bump}
use asatsuyu.Parser.Grammar.Exprs.{parse_match_arm, parse_match_expr, match_loop}
use asatsuyu.Parser.Trace.{
  At, At-here, At-start, At-report, Good, panics, ends, Any, seq, split, finished, last_any, ended,
  optional, choice, At-weaken,
}
use asatsuyu.Parser.Steps.{Ready, Ready-not_eof, Ready-last}
use asatsuyu.Parser.Recovery.{
  Open, not_same, Starts, Starts-at, bump-in, must-Good, error_and_bump-Good, bump-at,
  error_recover_until-Good,
}
use asatsuyu.Parser.Rules.{Ready-same}
use asatsuyu.Parser.Rules.PatternRules.{parse_pattern-Good}
use asatsuyu.Parser.Rules.ExprRules.{Fit, Rules}

-- Where the arrow is found an expression can follow.
abbrev Arrow : Bool → Parser → Type 0
Arrow found q = found ≡ true → Open q

arrow-bump :
    (q : Parser)
    → at arrow q ≡ true
    → Good q 0 0 Arrow
        (elim (bump q) [ out_of_fuel ↦ out_of_fuel | panic ↦ panic | ok _ r ↦ ok true r ])
arrow-bump q t = seq (At-here q) (bump-at arrow q t refl) (λ x r a keeps.
    ends (At-weaken 0 (omega arith) a) (λ _. keeps (not_same arrow r_brace refl refl)))

arrow-Good :
    (q : Parser)
    → Good q 0 0 Arrow (elim (at arrow q) [
      | true ↦ elim (bump q) [ out_of_fuel ↦ out_of_fuel | panic ↦ panic | ok _ r ↦ ok true r ]
      | false ↦
          elim (asatsuyu.Parser.Core.error_recover_until "expected `->` after pattern"
            (new_set (arrow ∷ []))
            e0050
            q) [
              | out_of_fuel ↦ out_of_fuel
              | panic ↦ panic
              | ok _ r ↦ elim (at arrow r) [
                | true ↦ elim (bump r) [
                  | out_of_fuel ↦ out_of_fuel
                  | panic ↦ panic
                  | ok _ s ↦ ok true s
                ]
                | false ↦ ok false r
              ]
            ]
    ])
arrow-Good q = split (at arrow q) (arrow-bump q) (λ t.
    seq (At-here q)
      (error_recover_until-Good "expected `->` after pattern" (new_set (arrow ∷ [])) e0050 q)
      (λ x r a _.
        asatsuyu.Parser.Trace.last_step a (omega arith)
          (split (at arrow r) (arrow-bump r) (λ s. ends (At-here r) (λ h. absurd (cc h))))
          (λ y s b h. h)))

module _ {fuel : ℕ} (rules : Rules fuel) where
  pub parse_match_arm-Good :
      (p : Parser) → Fit (suc fuel) 4 p → Ready p → Good p 0 0 Any (parse_match_arm (suc fuel) p)
  unfolding parse_match_arm
  parse_match_arm-Good p f ready =
      seq (At-start match_arm (At-here p)) (parse_pattern-Good fuel _ (omega arith) ready)
        (λ x q a _.
          let u = a.used in
          seq a
            (optional (at if_kw q)
              (λ t. rules.guard_rule q (omega arith) (Starts-at q if_kw t refl refl)))
            (λ y r b _. seq b (arrow-Good r) (λ found w c keeps.
              let v = c.used in
              seq c (optional found (λ t. rules.bp 0 w (omega arith) (Ready-last w (keeps t))))
                (λ z w2 d _. finished (omega arith) d))))

  pub match_loop-Good : (p : Parser) → Fit (suc fuel) 5 p → Good p 0 0 Any (match_loop (suc fuel) p)
  unfolding match_loop
  match_loop-Good p f =
      choice (not (at asatsuyu.Syntax.Kind.r_brace p) && not (at_eof p))
        (λ t.
          let ready = Ready-not_eof p (ground (arith, t)) in
          seq (At-here p)
            (choice (at_any pattern_start p) (λ s. rules.arm p (omega arith) ready)
              (λ s. last_any (At-here p) (error_and_bump-Good "expected pattern" e0056 p ready)))
            (λ x q a _.
              let u = a.used in
              let l = a.size in
              last_any a (
                choice (q.pos == p.pos)
                  (λ e. last_any (At-here q) (
                    error_and_bump-Good "unexpected token in match" e0057 q
                      (Ready-same a ((==_iff q.pos p.pos).0 e) ready)))
                  (λ e.
                    let shorter : length q.rest < length p.rest = ground (arith, e, u, l) in
                    rules.arms q (omega arith)))))
        (λ t. ends (At-here p) tt)

  pub parse_match_expr-Good :
      (p : Parser) → Fit (suc fuel) 0 p → Starts p → Good p 0 0 Any (parse_match_expr (suc fuel) p)
  unfolding parse_match_expr
  parse_match_expr-Good p f s =
      seq (At-start match_expr (At-here p)) (bump-in match_expr s) (λ x q a o.
        let u = a.used in
        seq a (rules.bp 0 q (omega arith) (Ready-last q o)) (λ y r b _.
          seq b
            (choice (at l_brace r) (λ t. last_any (At-here r) (bump-at l_brace r t refl))
              (λ t. ends (At-report _ (At-here r)) tt))
            (λ z w c _.
              let v = c.used in
              seq c (rules.arms w (omega arith)) (λ _ w2 d _.
                seq d (must-Good r_brace w2 refl) (λ _ w3 e _. finished (omega arith) e)))))
