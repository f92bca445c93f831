-- ===== src/Parser/Rules/PatternRules.antt =====
-- The rules for patterns of asatsuyu/crates/asatsuyu-parser/src/grammar.rs end well.
use asatsuyu.Base.{ℕ, zero, suc, ◌+◌, ◌*◌, ◌≤◌, ◌<◌, ◌≡◌, refl, ap, ◌∙◌, true, length, arith}
use asatsuyu.Syntax.Kind.{
  SyntaxKind, same_kind, ident, l_paren, r_paren, r_bracket, dot_dot, constructor_pat, list_pat,
  ident_pat, wildcard_pat, literal_pat, underscore, int_lit, float_lit, string_lit, true_kw,
  false_kw, l_bracket,
}
use asatsuyu.Syntax.Diagnostic.{e0056}
use asatsuyu.Parser.State.{Parser, at, nth, current, current_text}
use asatsuyu.Parser.Grammar.Patterns.{
  leaf, parse_wildcard_pat, parse_literal_pat, parse_ident_pat, parse_pattern, pattern_at,
  parse_constructor_pat, parse_list_pat, starts_uppercase, list_pat_stop,
}
use asatsuyu.Parser.Trace.{At-here, At-start, Good, Any, seq, finished, last_any, optional, choice}
use asatsuyu.Parser.Steps.{Ready, Ready-at, bump-Good}
use asatsuyu.Parser.Recovery.{must-Good, error_and_bump-Good, bump-at}
use asatsuyu.Parser.Rules.{Item, delimited-Good}

pub leaf-Good : (k : SyntaxKind) (p : Parser) → Ready p → Good p 1 0 Any (leaf k p)
unfolding leaf
leaf-Good k p ready =
    seq (At-start k (At-here p)) (bump-Good _ ready) (λ x q a b. finished (omega arith) a)

-- A constructor pattern with its fields, where a pattern with less fuel ends well.
parse_constructor_pat-Good :
    (fuel : ℕ) (p : Parser)
    → Item (length p.rest) (parse_pattern fuel)
    → 8 * length p.rest ≤ fuel
    → Ready p
    → same_kind (nth 1 p) l_paren ≡ true
    → Good p 0 0 Any (parse_constructor_pat (suc fuel) p)
unfolding parse_constructor_pat
parse_constructor_pat-Good fuel p h f ready t =
    seq (At-start constructor_pat (At-here p)) (bump-Good _ ready) (λ x q a b.
      let here : at l_paren q ≡ true = ap (λ k. same_kind k l_paren) (b.ahead 0) ∙ t in
      seq a (bump-Good q (Ready-at q l_paren here refl)) (λ y r c d.
        let u = c.used in
        seq c
          (delimited-Good (length p.rest) (at r_paren) (parse_pattern fuel)
            "unexpected token in constructor pattern" h fuel r (omega arith) (omega arith))
          (λ z s e _. seq e (must-Good r_paren s refl) (λ _ v g _. finished (omega arith) g))))

parse_list_pat-Good :
    (fuel : ℕ) (p : Parser)
    → Item (length p.rest) (parse_pattern fuel)
    → 8 * length p.rest ≤ fuel
    → Ready p
    → Good p 0 0 Any (parse_list_pat (suc fuel) p)
unfolding parse_list_pat
parse_list_pat-Good fuel p h f ready =
    seq (At-start list_pat (At-here p)) (bump-Good _ ready) (λ x q a b.
      let u = a.used in
      seq a
        (delimited-Good (length p.rest) list_pat_stop (parse_pattern fuel)
          "unexpected token in list pattern" h fuel q (omega arith) (omega arith))
        (λ y r c _.
          seq c
            (optional (at dot_dot r) (λ t. seq (At-here r) (bump-at dot_dot r t refl) (λ z s e _.
              last_any e
                (optional (at ident s) (λ v. last_any (At-here s) (bump-at ident s v refl))))))
            (λ z s e _. seq e (must-Good r_bracket s refl) (λ _ v g _. finished (omega arith) g))))

pattern_at-Good :
    (fuel : ℕ) (k : SyntaxKind) (p : Parser)
    → Item (length p.rest) (parse_pattern fuel)
    → 8 * length p.rest ≤ fuel
    → Ready p
    → Good p 0 0 Any (pattern_at (suc (suc fuel)) k p)
unfolding pattern_at parse_wildcard_pat parse_literal_pat parse_ident_pat
pattern_at-Good fuel underscore p h f ready = last_any (At-here p) (leaf-Good wildcard_pat p ready)
pattern_at-Good fuel int_lit p h f ready = last_any (At-here p) (leaf-Good literal_pat p ready)
pattern_at-Good fuel float_lit p h f ready = last_any (At-here p) (leaf-Good literal_pat p ready)
pattern_at-Good fuel string_lit p h f ready = last_any (At-here p) (leaf-Good literal_pat p ready)
pattern_at-Good fuel true_kw p h f ready = last_any (At-here p) (leaf-Good literal_pat p ready)
pattern_at-Good fuel false_kw p h f ready = last_any (At-here p) (leaf-Good literal_pat p ready)
pattern_at-Good fuel ident p h f ready =
    choice (same_kind (nth 1 p) l_paren) (λ t. parse_constructor_pat-Good fuel p h f ready t)
      (λ t.
        choice (starts_uppercase (current_text p))
          (λ u. last_any (At-here p) (leaf-Good constructor_pat p ready))
          (λ u. last_any (At-here p) (leaf-Good ident_pat p ready)))
pattern_at-Good fuel l_bracket p h f ready = parse_list_pat-Good fuel p h f ready
pattern_at-Good fuel _ p h f ready =
    last_any (At-here p) (error_and_bump-Good "expected pattern" e0056 p ready)

pub parse_pattern-Good :
    (fuel : ℕ) (p : Parser)
    → 8 * length p.rest + 2 < fuel
    → Ready p
    → Good p 0 0 Any (parse_pattern fuel p)
unfolding parse_pattern
parse_pattern-Good (suc (suc (suc fuel))) p f ready =
    pattern_at-Good fuel (current p) p (λ q l r. parse_pattern-Good fuel q (omega arith) r)
      (omega arith) ready
parse_pattern-Good zero p f ready = absurd (omega arith)
parse_pattern-Good (suc zero) p f ready = absurd (omega arith)
parse_pattern-Good (suc (suc zero)) p f ready = absurd (omega arith)
