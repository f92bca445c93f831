-- ===== src/Parser/Rules.antt =====
-- The rules for types and parameters, and the loops that the rules share: each ends well.
pub mod PatternRules
pub mod ExprRules
pub mod ItemRules
use asatsuyu.Base.{
  ℕ, zero, suc, ◌+◌, ◌≤◌, ◌<◌, ◌≡◌, ◌≢◌, refl, ap, ◌∙◌, sym, Bool, true, false, not, ◌&&◌, List, [],
  ◌∷◌, length, arith, String, ==_iff, ◌==◌,
}
use asatsuyu.Syntax.Kind.{
  SyntaxKind, same_kind, ident, l_paren, r_paren, comma, eof, type_expr, colon, l_brace, r_brace,
  param, param_list, return_type,
}
use asatsuyu.Syntax.Diagnostic.{DiagnosticCode, e0057, e0053, e0059}
use asatsuyu.Parser.State.{Parser, at, at_eof}
use asatsuyu.Parser.TokenSet.{new_set}
use asatsuyu.Parser.Monad.{M, Outcome, out_of_fuel, panic, ok}
use asatsuyu.Parser.Core.{bump, error_and_bump}
use asatsuyu.Parser.Grammar.{
  more_items, paren_items, delimited, parse_type_expr, param_type, parse_param,
  parse_param_list_with_mode, parse_param_list, parse_lambda_param_list, parse_return_type,
  param_follow,
}
use asatsuyu.Parser.Trace.{
  At, At-here, At-start, Good, panics, ends, Any, seq, split, finished, last_any, last_step, ended,
  optional, choice, closing,
}
use asatsuyu.Parser.Steps.{Ready, Ready-not_eof, Ready-last}
use asatsuyu.Parser.Recovery.{
  Open, not_same, expect-Good, must-Good, error_and_bump-Good, error_recover_until-Good, bump-at,
}

-- An item of a list ends well on fewer than `n` tokens.
abbrev pub Item : ℕ → M (Unit {0}) → Type 0
Item n item = (q : Parser) → length q.rest < n → Ready q → Good q 0 0 Any (item q)

pub more_items-Good :
    (n : ℕ) (item : M (Unit {0}))
    → Item n item
    → (fuel : ℕ) (p : Parser) → length p.rest ≤ n
    → length p.rest < fuel
    → Good p 0 0 Any (more_items item fuel p)
unfolding more_items
more_items-Good n item h zero p l f = absurd (omega arith)
more_items-Good n item h (suc fuel) p l f = optional (at comma p) (λ t.
    seq (At-here p) (bump-at comma p t refl) (λ x q a keeps.
      let u = a.used in
      split (at r_paren q) (λ s. ended a)
        (λ s.
          seq a (h q (omega arith) (Ready-last q (keeps (not_same comma r_brace refl refl))))
            (λ y r b _.
              let v = b.used in
              last_any b (more_items-Good n item h fuel r (omega arith) (omega arith))))))

pub paren_items-Good :
    (n : ℕ) (item : M (Unit {0}))
    → Item n item
    → (fuel : ℕ) (p : Parser) → length p.rest ≤ n
    → length p.rest ≤ fuel
    → at l_paren p ≡ true
    → Good p 0 0 Any (paren_items item fuel p)
unfolding paren_items
paren_items-Good n item h fuel p l f t = seq (At-here p) (bump-at l_paren p t refl) (λ x q a keeps.
    let u = a.used in
    seq a
      (optional (not (at r_paren q) && not (at_eof q)) (λ s.
        seq (At-here q) (h q (omega arith) (Ready-not_eof q (ground (arith, s)))) (λ y r b _.
          let v = b.used in
          last_any b (more_items-Good n item h fuel r (omega arith) (omega arith)))))
      (λ y r b _. last_any b (must-Good r_paren r refl)))

-- Where nothing is consumed the rest is the same.
pub Ready-same : {p q : Parser} {n : ℕ} → At p n 0 q → q.pos ≡ p.pos → Ready p → Ready q
Ready-same {p = p} a e ready t c =
    let s = a.size in
    ready
      (sym (ap (λ r. same_kind (asatsuyu.Parser.State.nth_kind r 0) eof) (a.still (omega arith)))
        ∙ t)
      (sym a.closes ∙ c)

-- A round of a loop: a token that a rule leaves where it is, is refused, and either way the rest is
-- shorter behind it.
pub refuse-Good :
    {p q : Parser} {n : ℕ} (message : String) (code : DiagnosticCode)
    → At p n 0 q
    → Ready p
    → Good q 0 0
        (λ _ r. length r.rest < length p.rest)
        (elim (q.pos == p.pos) [ true ↦ error_and_bump message code q | false ↦ ok tt q ])
refuse-Good {p} {q} message code a ready =
    let u = a.used in
    let s = a.size in
    split (q.pos == p.pos)
      (λ t.
        last_step (At-here q) (omega arith)
          (error_and_bump-Good message code q (Ready-same a ((==_iff q.pos p.pos).0 t) ready))
          (λ x r b _. let v = b.used in omega arith))
      (λ t. ends (At-here q) (ground (arith, t, u, s)))

pub delimited-stopped :
    (stop : Parser → Bool) (item : M (Unit {0})) (message : String) (fuel : ℕ) (p : Parser)
    → 0 < fuel
    → stop p ≡ true
    → Good p 0 0 Any (delimited stop item message fuel p)
unfolding delimited
delimited-stopped stop item message zero p f t = absurd (omega arith)
delimited-stopped stop item message (suc fuel) p f t =
    choice (not (stop p) && not (at_eof p)) (λ s. absurd (ground (arith, s, t)))
      (λ s. ends (At-here p) tt)

pub delimited-Good :
    (n : ℕ) (stop : Parser → Bool) (item : M (Unit {0})) (message : String)
    → Item n item
    → (fuel : ℕ) (p : Parser) → length p.rest < n
    → length p.rest + 1 < fuel
    → Good p 0 0 Any (delimited stop item message fuel p)
unfolding delimited
delimited-Good n stop item message h zero p l f = absurd (omega arith)
delimited-Good n stop item message h (suc fuel) p l f =
    choice (not (stop p) && not (at_eof p))
      (λ s.
        let ready = Ready-not_eof p (ground (arith, s)) in
        seq (At-here p) (h p l ready) (λ x q a _.
          let u = a.used in
          last_any a (
            choice (at comma q)
              (λ t. seq (At-here q) (bump-at comma q t refl) (λ y r b keeps.
                let v = b.used in
                last_any b
                  (delimited-Good n stop item message h fuel r (omega arith) (omega arith))))
              (λ t.
                choice (stop q) (λ e. delimited-stopped stop item message fuel q (omega arith) e)
                  (λ e. optional (q.pos == p.pos) (λ c. last_any (At-here q) (
                    error_and_bump-Good message e0057 q
                      (Ready-same a ((==_iff q.pos p.pos).0 c) ready))))))))
      (λ s. ends (At-here p) tt)

pub parse_type_expr-Good :
    (fuel : ℕ) (p : Parser) → length p.rest < fuel → Good p 0 0 Any (parse_type_expr fuel p)
unfolding parse_type_expr
parse_type_expr-Good zero p f = absurd (omega arith)
parse_type_expr-Good (suc fuel) p f =
    seq (At-start type_expr (At-here p)) (must-Good ident _ refl) (λ x q a _.
      let u = a.used in
      seq a
        (optional (at l_paren q) (λ t.
          paren_items-Good (length q.rest) (parse_type_expr fuel)
            (λ r l ready. parse_type_expr-Good fuel r (omega arith)) fuel q (omega arith)
            (omega arith) t))
        (λ y r b _. finished (omega arith) b))

param_type-Good :
    (require : Bool) (fuel : ℕ) (p : Parser)
    → length p.rest < fuel
    → Good p 0 0 Any (param_type require fuel p)
unfolding param_type
param_type-Good require fuel p f =
    choice (at colon p)
      (λ t. seq (At-here p) (bump-at colon p t refl) (λ x q a _.
        let u = a.used in
        last_any a (
          choice (at ident q) (λ s. parse_type_expr-Good fuel q (omega arith))
            (λ s.
              last_any (At-here q)
                (error_recover_until-Good "expected parameter type" param_follow e0053 q)))))
      (λ t. optional require (λ s.
        last_any (At-here p)
          (error_recover_until-Good "expected `:` after parameter name" param_follow e0053 p)))

pub parse_param-Good :
    (require : Bool) (fuel : ℕ) (p : Parser)
    → length p.rest < fuel
    → Good p 0 0 Any (parse_param require fuel p)
unfolding parse_param
parse_param-Good require fuel p f =
    seq (At-start param (At-here p)) (expect-Good ident _ refl) (λ found q a _.
      let u = a.used in
      seq a
        (choice found (λ t. param_type-Good require fuel q (omega arith))
          (λ t.
            last_any (At-here q)
              (error_recover_until-Good "expected parameter name" param_follow e0053 q)))
        (λ y r b _. finished (omega arith) b))

-- A parameter list has more fuel than tokens.
pub parse_param_list_with_mode-Good :
    (require : Bool) (fuel : ℕ) (p : Parser)
    → length p.rest < fuel
    → at l_paren p ≡ true
    → Good p 1 0 Any (parse_param_list_with_mode require fuel p)
unfolding parse_param_list_with_mode
parse_param_list_with_mode-Good require fuel p f t =
    seq (At-start param_list (At-here p)) (bump-at l_paren _ t refl) (λ x q a _.
      let u = a.used in
      seq a
        (delimited-Good fuel (at r_paren) (parse_param require fuel)
          "unexpected token in parameter list" (λ r l ready. parse_param-Good require fuel r l) fuel
          q (omega arith) (omega arith))
        (λ y r b _. seq b (must-Good r_paren r refl) (λ z s c _. finished (omega arith) c)))

pub parse_return_type-Good :
    (fuel : ℕ) (p : Parser)
    → length p.rest < fuel
    → at asatsuyu.Syntax.Kind.arrow p ≡ true
    → Good p 1 0 Any (parse_return_type fuel p)
unfolding parse_return_type
parse_return_type-Good fuel p f t =
    seq (At-start return_type (At-here p)) (bump-at asatsuyu.Syntax.Kind.arrow _ t refl) (λ x q a _.
      let u = a.used in
      seq a
        (choice (at ident q) (λ s. parse_type_expr-Good fuel q (omega arith))
          (λ s.
            last_any (At-here q)
              (error_recover_until-Good "expected return type" (new_set (l_brace ∷ [])) e0059 q)))
        (λ y r b _. finished (omega arith) b))
