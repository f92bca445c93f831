-- ===== src/Parser/Rules/ExprRules/ControlRules.antt =====
-- The rules for blocks, statements, branches, lambdas and matches of
-- asatsuyu/crates/asatsuyu-parser/src/grammar.rs end well, where the rules they call do.
use asatsuyu.Base.{ℕ, suc, ◌≤◌, refl, true, false, not, ◌&&◌, [], ◌∷◌, arith, String}
use asatsuyu.Syntax.Kind.{
  r_brace, l_brace, l_paren, if_expr, else_kw, if_kw, block_expr, let_kw, mut_kw, ident, eq,
  let_stmt, assign_stmt, lambda_expr, arrow, guard,
}
use asatsuyu.Syntax.Diagnostic.{DiagnosticCode, e0055, e0053, e0054, e0057, e0060}
use asatsuyu.Parser.TokenSet.{TokenSet, new_set, empty}
use asatsuyu.Parser.State.{Event, Parser, at, at_any, at_eof, current}
use asatsuyu.Parser.Monad.{out_of_fuel, panic, ok}
use asatsuyu.Parser.Core.{bump}
use asatsuyu.Parser.Grammar.Exprs.{
  at_assignment, parse_expr, parse_if_expr, parse_block_expr, block_loop, parse_let_stmt,
  parse_assign_stmt, parse_lambda_expr, parse_guard,
}
use asatsuyu.Parser.Grammar.{parse_lambda_param_list}
use asatsuyu.Parser.Trace.{
  At, At-here, At-start, Good, ends, Any, seq, split, finished, last_any, optional, choice,
  last_step,
}
use asatsuyu.Parser.Steps.{Ready, Ready-not_eof, Ready-last}
use asatsuyu.Parser.Recovery.{
  Open, not_same, Starts, Starts-at, bump-in, must-Good, bump-at, error_recover_until-Good,
}
use asatsuyu.Parser.Rules.{refuse-Good, parse_param_list_with_mode-Good, parse_return_type-Good}
use asatsuyu.Parser.Rules.ExprRules.{Fit, Rules}

module _ {fuel : ℕ} (rules : Rules fuel) where
  -- A block, or recovery where there is none.
  block_or-Good :
      (message : String) (stop : TokenSet) (code : DiagnosticCode) (q : Parser)
      → Fit fuel 0 q
      → Good q 0 0 Any (elim (at l_brace q) [
        | true ↦ parse_block_expr fuel q
        | false ↦ asatsuyu.Parser.Core.error_recover_until message stop code q
      ])
  block_or-Good message stop code q f =
      choice (at l_brace q) (λ t. rules.block q f (Starts-at q l_brace t refl refl))
        (λ t. last_any (At-here q) (error_recover_until-Good message stop code q))

  pub parse_if_expr-Good :
      (p : Parser) → Fit (suc fuel) 0 p → Starts p → Good p 0 0 Any (parse_if_expr (suc fuel) p)
  unfolding parse_if_expr
  parse_if_expr-Good p f s = seq (At-start if_expr (At-here p)) (bump-in if_expr s) (λ x q a o.
      let u = a.used in
      seq a (rules.bp 0 q (omega arith) (Ready-last q o)) (λ y r b _.
        let v = b.used in
        seq b
          (block_or-Good "expected block after `if` condition" (new_set (else_kw ∷ [])) e0060 r
            (omega arith))
          (λ z w c _.
            let l = c.used in
            seq c
              (optional (at else_kw w) (λ t.
                seq (At-here w) (bump-at else_kw w t refl) (λ z2 w2 d _.
                  let m = d.used in
                  last_any d (
                    choice (at if_kw w2)
                      (λ i. rules.if_rule w2 (omega arith) (Starts-at w2 if_kw i refl refl))
                      (λ i.
                        block_or-Good "expected block or `if` after `else`" empty e0060 w2
                          (omega arith))))))
              (λ _ w3 d _. finished (omega arith) d))))

  pub parse_block_expr-Good :
      (p : Parser) → Fit (suc fuel) 0 p → Starts p → Good p 0 0 Any (parse_block_expr (suc fuel) p)
  unfolding parse_block_expr
  parse_block_expr-Good p f s =
      seq (At-start block_expr (At-here p)) (bump-in block_expr s) (λ x q a o.
        let u = a.used in
        seq a (rules.statements q (omega arith))
          (λ y r b _. seq b (must-Good r_brace r refl) (λ z v c _. finished (omega arith) c)))

  statement-Good :
      (p : Parser)
      → Fit fuel 4 p
      → Ready p
      → Good p 0 0 Any (elim (at let_kw p) [
        | true ↦ parse_let_stmt fuel p
        | false ↦ elim (at_assignment p) [
          | true ↦ parse_assign_stmt fuel p
          | false ↦ parse_expr fuel p
        ]
      ])
  statement-Good p f ready =
      choice (at let_kw p) (λ t. rules.let_rule p (omega arith) (Starts-at p let_kw t refl refl))
        (λ t.
          choice (at_assignment p)
            (λ t. rules.assign p (omega arith) (Starts-at p ident (ground (arith, t)) refl refl))
            (λ t. rules.expr p f ready))

  pub block_loop-Good : (p : Parser) → Fit (suc fuel) 5 p → Good p 0 0 Any (block_loop (suc fuel) p)
  unfolding block_loop
  block_loop-Good p f =
      choice (not (at r_brace p) && not (at_eof p))
        (λ t.
          let ready = Ready-not_eof p (ground (arith, t)) in
          seq (At-here p) (statement-Good p (omega arith) ready) (λ x q a _.
            seq a (refuse-Good "unexpected token in block" e0057 a ready)
              (λ y r b l. last_any b (rules.statements r (omega arith)))))
        (λ t. ends (At-here p) tt)

  -- What follows the name of a binding: `=` and an expression.
  bound-Good :
      {o q : Parser} {n : ℕ}
      → At o n 1 q
      → 1 ≤ n
      → Fit (suc fuel) 0 o
      → Open q
      → Good o 0 0 Any (elim (asatsuyu.Parser.Core.must eq q) [
        | out_of_fuel ↦ out_of_fuel
        | panic ↦ panic
        | ok _ r ↦ elim (parse_expr fuel r) [
          | out_of_fuel ↦ out_of_fuel
          | panic ↦ panic
          | ok _ v ↦ ok tt (record v { events = asatsuyu.Parser.State.finish ∷ v.events })
        ]
      ])
  bound-Good {q = q} a m f o = seq a (must-Good eq q refl) (λ x r b keeps.
      let v = b.used in
      seq b (rules.expr r (omega arith) (Ready-last r (keeps o (not_same eq r_brace refl refl))))
        (λ y w c _. finished (omega arith) c))

  pub parse_assign_stmt-Good :
      (p : Parser) → Fit (suc fuel) 0 p → Starts p → Good p 0 0 Any (parse_assign_stmt (suc fuel) p)
  unfolding parse_assign_stmt
  parse_assign_stmt-Good p f s =
      seq (At-start assign_stmt (At-here p)) (bump-in assign_stmt s)
        (λ x q a o. bound-Good a (omega arith) f o)

  -- The name of a binding, or recovery where there is none.
  binding_name-Good :
      (q : Parser)
      → Open q
      → Good q 0 0
          (λ _ r. Open r)
          (elim (at ident q) [
            | true ↦ bump q
            | false ↦
                asatsuyu.Parser.Core.error_recover_until "expected binding name"
                  (new_set (eq ∷ r_brace ∷ []))
                  e0055
                  q
          ])
  binding_name-Good q o =
      split (at ident q)
        (λ t.
          last_step (At-here q) (omega arith) (bump-at ident q t refl)
            (λ x r b keeps. keeps (not_same ident r_brace refl refl)))
        (λ t.
          last_step (At-here q) (omega arith)
            (error_recover_until-Good "expected binding name" (new_set (eq ∷ r_brace ∷ [])) e0055 q)
            (λ x r b keeps. keeps o))

  mutable-Good :
      (q : Parser)
      → Open q
      → Good q 0 0 (λ _ r. Open r) (elim (at mut_kw q) [ true ↦ bump q | false ↦ ok tt q ])
  mutable-Good q o =
      split (at mut_kw q)
        (λ t.
          last_step (At-here q) (omega arith) (bump-at mut_kw q t refl)
            (λ x r b keeps. keeps (not_same mut_kw r_brace refl refl)))
        (λ t. ends (At-here q) o)

  pub parse_let_stmt-Good :
      (p : Parser) → Fit (suc fuel) 0 p → Starts p → Good p 0 0 Any (parse_let_stmt (suc fuel) p)
  unfolding parse_let_stmt
  parse_let_stmt-Good p f s = seq (At-start let_stmt (At-here p)) (bump-in let_stmt s) (λ x q a o.
      seq a (mutable-Good q o)
        (λ y r b o. seq b (binding_name-Good r o) (λ z w c o. bound-Good c (omega arith) f o)))

  pub parse_lambda_expr-Good :
      (p : Parser) → Fit (suc fuel) 0 p → Starts p → Good p 0 0 Any (parse_lambda_expr (suc fuel) p)
  unfolding parse_lambda_expr parse_lambda_param_list
  parse_lambda_expr-Good p f s =
      seq (At-start lambda_expr (At-here p)) (bump-in lambda_expr s) (λ x q a o.
        let u = a.used in
        seq a
          (choice (at l_paren q)
            (λ t.
              last_any (At-here q) (parse_param_list_with_mode-Good false fuel q (omega arith) t))
            (λ t. last_any (At-here q) (
              error_recover_until-Good "expected parameter list" (new_set (l_brace ∷ arrow ∷ []))
                e0053 q)))
          (λ y r b _.
            let v = b.used in
            seq b
              (optional (at arrow r)
                (λ t. last_any (At-here r) (parse_return_type-Good fuel r (omega arith) t)))
              (λ z w c _.
                let l = c.used in
                seq c (block_or-Good "expected lambda body" empty e0054 w (omega arith))
                  (λ _ w2 d _. finished (omega arith) d))))

  pub parse_guard-Good :
      (p : Parser) → Fit (suc fuel) 0 p → Starts p → Good p 0 0 Any (parse_guard (suc fuel) p)
  unfolding parse_guard
  parse_guard-Good p f s = seq (At-start guard (At-here p)) (bump-in guard s) (λ x q a o.
      let u = a.used in
      seq a (rules.bp 0 q (omega arith) (Ready-last q o)) (λ y r b _. finished (omega arith) b))
