-- ===== src/Parser/Rules/ExprRules.antt =====
-- The rules for operators, calls and lists of asatsuyu/crates/asatsuyu-parser/src/grammar.rs end
-- well, where the rules they call do.
pub mod ControlRules
pub mod MatchRules
pub mod AllRules
use asatsuyu.Base.{
  ℕ, zero, suc, ◌+◌, ◌*◌, ◌≤◌, ◌<◌, ◌≡◌, ◌≢◌, refl, ap, ◌∙◌, sym, Bool, true, false, not, List, [],
  ◌∷◌, length, arith, Option, some, none, ltb,
}
use asatsuyu.Syntax.Kind.{
  SyntaxKind, same_kind, eof, minus, bang, l_paren, r_paren, l_bracket, r_bracket, if_kw, match_kw,
  fn_kw, try_kw, await_kw, int_lit, float_lit, string_lit, true_kw, false_kw, ident, literal_expr,
  ident_expr, paren_expr, try_expr, await_expr, unary_expr, dot, field_access_expr, call_expr,
  arg_list, list_expr, r_brace,
}
use asatsuyu.Syntax.Kind.Laws.{same_kind-eq}
use asatsuyu.Syntax.Diagnostic.{e0055}
use asatsuyu.Parser.State.{Event, Parser, at, current}
use asatsuyu.Parser.Monad.{M, Outcome, out_of_fuel, panic, ok}
use asatsuyu.Parser.Grammar.Exprs.{
  infix_binding_power, postfix_binding_power, infix_node, parse_literal_expr, parse_ident_expr,
  parse_expr_bp, parse_expr, expr_atom, parse_prefix, expr_loop, postfix, parse_arg_list,
  parse_list_expr, parse_if_expr, parse_block_expr, block_loop, parse_let_stmt, parse_assign_stmt,
  parse_lambda_expr, parse_guard, parse_match_arm, parse_match_expr, match_loop,
}
use asatsuyu.Parser.Trace.{
  At, At-here, At-start, At-start_at, At-finish, Nest, Nest-trans, same, Good, panics, ends, Any,
  seq, split, finished, last_any, ended, optional, choice, split_option,
}
use asatsuyu.Parser.Steps.{Ready, Ready-at, Ready-kind, Ready-last, Bumped, bump-Good}
use asatsuyu.Parser.Recovery.{
  Open, not_same, Starts, Starts-kind, Starts-at, bump-on, bump-in, must-Good, error_and_bump-Good,
  bump-at,
}
use asatsuyu.Parser.Rules.{Item, delimited-Good}
use asatsuyu.Parser.Rules.PatternRules.{leaf-Good}

-- Eight calls for each token of the rest, and some more.
abbrev pub Fit : ℕ → ℕ → Parser → Type 0
Fit fuel more p = 8 * length p.rest + more < fuel

-- Every rule for expressions ends well with an amount of fuel that fits.
pub record Rules (fuel : ℕ) : Type 0 where
  pub bp :
      (min_bp : ℕ) (p : Parser)
      → Fit fuel 3 p
      → Ready p
      → Good p 0 0 Any (parse_expr_bp fuel min_bp p)
  pub expr : (p : Parser) → Fit fuel 4 p → Ready p → Good p 0 0 Any (parse_expr fuel p)
  pub atom :
      (k : SyntaxKind) (p : Parser)
      → Fit fuel 1 p
      → current p ≡ k
      → Ready p
      → Good p 0 0 Any (expr_atom fuel k p)
  pub prefix_rule :
      (bp : ℕ) (p : Parser) → Fit fuel 0 p → Starts p → Good p 0 0 Any (parse_prefix fuel bp p)
  pub loop :
      (c min_bp : ℕ) (p : Parser) (from : List Event)
      → Fit fuel 2 p
      → Nest from p.events 0
      → c ≡ length from
      → Good p 0 0 Any (expr_loop fuel c min_bp p)
  pub post :
      (c bp : ℕ) (k : SyntaxKind) (p : Parser) (from : List Event)
      → Fit fuel 1 p
      → Nest from p.events 0
      → c ≡ length from
      → current p ≡ k
      → postfix_binding_power k ≡ some bp
      → Good p 1 0 Any (postfix fuel c k p)
  pub args : (p : Parser) → Fit fuel 0 p → Starts p → Good p 1 0 Any (parse_arg_list fuel p)
  pub list : (p : Parser) → Fit fuel 0 p → Starts p → Good p 0 0 Any (parse_list_expr fuel p)
  pub if_rule : (p : Parser) → Fit fuel 0 p → Starts p → Good p 0 0 Any (parse_if_expr fuel p)
  pub block : (p : Parser) → Fit fuel 0 p → Starts p → Good p 0 0 Any (parse_block_expr fuel p)
  pub statements : (p : Parser) → Fit fuel 5 p → Good p 0 0 Any (block_loop fuel p)
  pub let_rule : (p : Parser) → Fit fuel 0 p → Starts p → Good p 0 0 Any (parse_let_stmt fuel p)
  pub assign : (p : Parser) → Fit fuel 0 p → Starts p → Good p 0 0 Any (parse_assign_stmt fuel p)
  pub lambda : (p : Parser) → Fit fuel 0 p → Starts p → Good p 0 0 Any (parse_lambda_expr fuel p)
  pub guard_rule : (p : Parser) → Fit fuel 0 p → Starts p → Good p 0 0 Any (parse_guard fuel p)
  pub arm : (p : Parser) → Fit fuel 4 p → Ready p → Good p 0 0 Any (parse_match_arm fuel p)
  pub match_rule : (p : Parser) → Fit fuel 0 p → Starts p → Good p 0 0 Any (parse_match_expr fuel p)
  pub arms : (p : Parser) → Fit fuel 5 p → Good p 0 0 Any (match_loop fuel p)

-- An infix operator is there and is no brace.
Starts-infix : (p : Parser) (b : ℕ × ℕ) → infix_binding_power (current p) ≡ some b → Starts p
Starts-infix p b h = record {
  ready = λ t c. absurd (cc (h, ap infix_binding_power (same_kind-eq (current p) eof t)));
  no_brace = λ c. absurd (cc (h, ap infix_binding_power c));
}

module _ {fuel : ℕ} (rules : Rules fuel) where
  pub parse_expr_bp-Good :
      (min_bp : ℕ) (p : Parser)
      → Fit (suc fuel) 3 p
      → Ready p
      → Good p 0 0 Any (parse_expr_bp (suc fuel) min_bp p)
  unfolding parse_expr_bp
  parse_expr_bp-Good min_bp p f ready =
      seq (At-here p) (rules.atom (current p) p (omega arith) refl ready) (λ more q a _.
        let u = a.used in
        last_any a (
          optional more
            (λ t. rules.loop (length p.events) min_bp q p.events (omega arith) a.nest refl)))

  pub parse_expr-Good :
      (p : Parser) → Fit (suc fuel) 4 p → Ready p → Good p 0 0 Any (parse_expr (suc fuel) p)
  unfolding parse_expr
  parse_expr-Good p f ready = rules.bp 0 p (omega arith) ready

  -- A rule that is the atom of an expression.
  atom :
      {p : Parser} {r : Outcome (Unit {0})} {n : ℕ}
      → Good p n 0 Any r
      → Good p 0 0 Any (elim r [ out_of_fuel ↦ out_of_fuel | panic ↦ panic | ok _ q ↦ ok true q ])
  atom g = seq (At-here _) g (λ x q a _. ended a)

  -- A keyword and the expression behind it.
  prefixed-Good :
      (k : SyntaxKind) (bp : ℕ) (p : Parser)
      → Fit fuel 0 p
      → Starts p
      → Good p 0 0 Any
          (elim (asatsuyu.Parser.Core.bump
            (record p { events = asatsuyu.Parser.State.start k ∷ p.events })) [
              | out_of_fuel ↦ out_of_fuel
              | panic ↦ panic
              | ok _ q ↦ elim (parse_expr_bp fuel bp q) [
                | out_of_fuel ↦ out_of_fuel
                | panic ↦ panic
                | ok _ r ↦ ok tt (record r { events = asatsuyu.Parser.State.finish ∷ r.events })
              ]
            ])
  prefixed-Good k bp p f s = seq (At-start k (At-here p)) (bump-in k s) (λ x q a o.
      let u = a.used in
      seq a (rules.bp bp q (omega arith) (Ready-last q o)) (λ y r b _. finished (omega arith) b))

  parenthesized-Good :
      (p : Parser)
      → Fit fuel 0 p
      → Starts p
      → Good p 0 0 Any
          (elim (asatsuyu.Parser.Core.bump
            (record p { events = asatsuyu.Parser.State.start paren_expr ∷ p.events })) [
              | out_of_fuel ↦ out_of_fuel
              | panic ↦ panic
              | ok _ q ↦ elim (parse_expr_bp fuel 0 q) [
                | out_of_fuel ↦ out_of_fuel
                | panic ↦ panic
                | ok _ r ↦ elim (asatsuyu.Parser.Core.must r_paren r) [
                  | out_of_fuel ↦ out_of_fuel
                  | panic ↦ panic
                  | ok _ v ↦ ok tt (record v { events = asatsuyu.Parser.State.finish ∷ v.events })
                ]
              ]
            ])
  parenthesized-Good p f s =
      seq (At-start paren_expr (At-here p)) (bump-in paren_expr s) (λ x q a o.
        let u = a.used in
        seq a (rules.bp 0 q (omega arith) (Ready-last q o))
          (λ y r b _. seq b (must-Good r_paren r refl) (λ z v c _. finished (omega arith) c)))

  pub expr_atom-Good :
      (k : SyntaxKind) (p : Parser)
      → Fit (suc fuel) 1 p
      → current p ≡ k
      → Ready p
      → Good p 0 0 Any (expr_atom (suc fuel) k p)
  unfolding expr_atom parse_literal_expr parse_ident_expr
  expr_atom-Good minus p f e ready =
      atom (rules.prefix_rule 11 p (omega arith) (Starts-kind p minus e refl refl))
  expr_atom-Good bang p f e ready =
      atom (rules.prefix_rule 11 p (omega arith) (Starts-kind p bang e refl refl))
  expr_atom-Good l_paren p f e ready =
      atom (parenthesized-Good p (omega arith) (Starts-kind p l_paren e refl refl))
  expr_atom-Good if_kw p f e ready =
      atom (rules.if_rule p (omega arith) (Starts-kind p if_kw e refl refl))
  expr_atom-Good match_kw p f e ready =
      atom (rules.match_rule p (omega arith) (Starts-kind p match_kw e refl refl))
  expr_atom-Good fn_kw p f e ready =
      atom (rules.lambda p (omega arith) (Starts-kind p fn_kw e refl refl))
  expr_atom-Good try_kw p f e ready =
      atom (prefixed-Good try_expr 1 p (omega arith) (Starts-kind p try_kw e refl refl))
  expr_atom-Good await_kw p f e ready =
      atom (prefixed-Good await_expr 1 p (omega arith) (Starts-kind p await_kw e refl refl))
  expr_atom-Good l_bracket p f e ready =
      atom (rules.list p (omega arith) (Starts-kind p l_bracket e refl refl))
  expr_atom-Good int_lit p f e ready = atom (leaf-Good literal_expr p ready)
  expr_atom-Good float_lit p f e ready = atom (leaf-Good literal_expr p ready)
  expr_atom-Good string_lit p f e ready = atom (leaf-Good literal_expr p ready)
  expr_atom-Good true_kw p f e ready = atom (leaf-Good literal_expr p ready)
  expr_atom-Good false_kw p f e ready = atom (leaf-Good literal_expr p ready)
  expr_atom-Good ident p f e ready = atom (leaf-Good ident_expr p ready)
  expr_atom-Good _ p f e ready =
      seq (At-here p) (error_and_bump-Good "expected expression" e0055 p ready) (λ x q a _. ended a)

  pub parse_prefix-Good :
      (bp : ℕ) (p : Parser)
      → Fit (suc fuel) 0 p
      → Starts p
      → Good p 0 0 Any (parse_prefix (suc fuel) bp p)
  unfolding parse_prefix
  parse_prefix-Good bp p f s =
      seq (At-start unary_expr (At-here p)) (bump-in unary_expr s) (λ x q a o.
        let u = a.used in
        seq a (rules.bp bp q (omega arith) (Ready-last q o)) (λ y r b _. finished (omega arith) b))

  pub expr_loop-Good :
      (c min_bp : ℕ) (p : Parser) (from : List Event)
      → Fit (suc fuel) 2 p
      → Nest from p.events 0
      → c ≡ length from
      → Good p 0 0 Any (expr_loop (suc fuel) c min_bp p)
  unfolding expr_loop
  expr_loop-Good c min_bp p from f nest e =
      split_option _ _ (postfix_binding_power (current p))
        (λ left_bp t.
          choice (ltb left_bp min_bp) (λ l. ends (At-here p) tt)
            (λ l.
              seq (At-here p) (rules.post c left_bp (current p) p from (omega arith) nest e refl t)
                (λ x q a _.
                  let u = a.used in
                  last_any a
                    (rules.loop c min_bp q from (omega arith) (Nest-trans nest a.nest) e))))
        (λ _.
          split_option _ _ (infix_binding_power (current p))
            (λ b t.
              choice (ltb b.0 min_bp) (λ l. ends (At-here p) tt)
                (λ l.
                  let s = Starts-infix p b t in
                  seq (At-start_at from c (infix_node (current p)) nest e (At-here p))
                    (bump-on _ (record { ready = s.ready; no_brace = s.no_brace }))
                    (λ x q a o.
                      let u = a.used in
                      seq a (rules.bp b.1 q (omega arith) (Ready-last q o)) (λ y r d _.
                        let v = d.used in
                        let closed = At-finish d in
                        last_any closed (
                          rules.loop c min_bp _ from (omega arith) (Nest-trans nest closed.nest)
                            e)))))
            (λ _. ends (At-here p) tt))

  pub postfix-Good :
      (c bp : ℕ) (k : SyntaxKind) (p : Parser) (from : List Event)
      → Fit (suc fuel) 1 p
      → Nest from p.events 0
      → c ≡ length from
      → current p ≡ k
      → postfix_binding_power k ≡ some bp
      → Good p 1 0 Any (postfix (suc fuel) c k p)
  unfolding postfix
  postfix-Good c bp dot p from f nest e h t =
      let s = Starts-kind p dot h refl refl in
      seq (At-start_at from c field_access_expr nest e (At-here p))
        (bump-on _ (record { ready = s.ready; no_brace = s.no_brace }))
        (λ x q a o. seq a (must-Good ident q refl) (λ y r b _. finished (omega arith) b))
  postfix-Good c bp l_paren p from f nest e h t =
      let s = Starts-kind p l_paren h refl refl in
      seq (At-start_at from c call_expr nest e (At-here p))
        (rules.args _ (omega arith) (record { ready = s.ready; no_brace = s.no_brace }))
        (λ x q a o. finished (omega arith) a)
  postfix-Good c bp _ p from f nest e h t = absurd (cc t)

  pub parse_arg_list-Good :
      (p : Parser) → Fit (suc fuel) 0 p → Starts p → Good p 1 0 Any (parse_arg_list (suc fuel) p)
  unfolding parse_arg_list
  parse_arg_list-Good p f s = seq (At-start arg_list (At-here p)) (bump-in arg_list s) (λ x q a o.
      let u = a.used in
      seq a
        (delimited-Good (length p.rest) (at r_paren) (parse_expr_bp fuel 0)
          "unexpected token in argument list" (λ r l ready. rules.bp 0 r (omega arith) ready) fuel q
          (omega arith) (omega arith))
        (λ y r b _. seq b (must-Good r_paren r refl) (λ z v d _. finished (omega arith) d)))

  pub parse_list_expr-Good :
      (p : Parser) → Fit (suc fuel) 0 p → Starts p → Good p 0 0 Any (parse_list_expr (suc fuel) p)
  unfolding parse_list_expr
  parse_list_expr-Good p f s =
      seq (At-start list_expr (At-here p)) (bump-in list_expr s) (λ x q a o.
        let u = a.used in
        seq a
          (delimited-Good (length p.rest) (at r_bracket) (parse_expr_bp fuel 0)
            "unexpected token in list literal" (λ r l ready. rules.bp 0 r (omega arith) ready) fuel
            q (omega arith) (omega arith))
          (λ y r b _. seq b (must-Good r_bracket r refl) (λ z v d _. finished (omega arith) d)))
