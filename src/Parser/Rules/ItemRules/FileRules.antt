-- ===== src/Parser/Rules/ItemRules/FileRules.antt =====
-- The rules for functions and source files of asatsuyu/crates/asatsuyu-parser/src/grammar.rs end
-- well.
use asatsuyu.Base.{
  ℕ, zero, suc, ◌<◌, ◌≡◌, refl, ap, ◌∙◌, true, false, not, ◌||◌, [], ◌∷◌, length, arith, ◌⊎◌, inl,
  inr, Bool-cases,
}
use asatsuyu.Syntax.Kind.{
  SyntaxKind, same_kind, eof, ident, l_paren, l_brace, arrow, fn_def, pub_kw, pure_kw, async_kw,
  fn_kw, type_kw, import_kw, from_kw, let_kw, source_file,
}
use asatsuyu.Syntax.Diagnostic.{e0051, e0052, e0053, e0054, e0062}
use asatsuyu.Parser.TokenSet.{new_set, empty}
use asatsuyu.Parser.State.{start, Parser, at, at_eof, nth, current}
use asatsuyu.Parser.Grammar.{parse_param_list}
use asatsuyu.Parser.Core.{bump, error_recover_until}
use asatsuyu.Parser.Grammar.Exprs.{parse_block_expr}
use asatsuyu.Parser.Grammar.TopLevel.{
  modifiers, parse_fn_def, top_level_at, parse_top_level, source_loop, parse_source_file,
}
use asatsuyu.Parser.Trace.{
  At-here, At-start, At-finish, Good, ends, Any, seq, split, finished, last_any, last_step,
  optional, choice,
}
use asatsuyu.Parser.Steps.{Ready, Ready-at, Ready-not_eof, Eaten, eat_trivia-Good, NoTriviaFirst}
use asatsuyu.Parser.Recovery.{
  Starts-at, must-Good, bump-at, error_recover_until-Good, error_recover-Good,
}
use asatsuyu.Parser.Rules.{parse_param_list_with_mode-Good, parse_return_type-Good, refuse-Good}
use asatsuyu.Parser.Rules.ExprRules.{Fit}
use asatsuyu.Parser.Rules.ExprRules.AllRules.{all-Rules}
use asatsuyu.Parser.Rules.ItemRules.{
  visible-Good, parse_type_def-Good, parse_import-Good, parse_from_python_import-Good,
}

modifiers-Good : (fuel : ℕ) (p : Parser) → length p.rest < fuel → Good p 0 0 Any (modifiers fuel p)
unfolding modifiers
modifiers-Good zero p f = absurd (omega arith)
modifiers-Good (suc fuel) p f =
    choice (at pure_kw p || at async_kw p)
      (λ t.
        seq (At-here p) (asatsuyu.Parser.Steps.bump-Good p (one t (Bool-cases (at pure_kw p))))
          (λ x q a _. let u = a.used in last_any a (modifiers-Good fuel q (omega arith))))
      (λ t. ends (At-here p) tt)
  where
    one :
        (at pure_kw p || at async_kw p) ≡ true
        → (at pure_kw p ≡ true) ⊎ (at pure_kw p ≡ false)
        → Ready p
    one t (inl e) = Ready-at p pure_kw e refl
    one t (inr e) = Ready-at p async_kw (ground (arith, t, e)) refl

-- The name of a function, or recovery.
name-Good :
    (q : Parser)
    → Good q 0 0 Any (elim (at ident q) [
      | true ↦ bump q
      | false ↦
          error_recover_until "expected function name"
            (new_set (l_paren ∷ l_brace ∷ arrow ∷ []))
            e0052
            q
    ])
name-Good q =
    choice (at ident q) (λ t. last_any (At-here q) (bump-at ident q t refl))
      (λ t. last_any (At-here q) (
        error_recover_until-Good "expected function name" (new_set (l_paren ∷ l_brace ∷ arrow ∷ []))
          e0052 q))

parameters-Good :
    (fuel : ℕ) (q : Parser)
    → length q.rest < fuel
    → Good q 0 0 Any (elim (at l_paren q) [
      | true ↦ parse_param_list fuel q
      | false ↦
          error_recover_until "expected parameter list" (new_set (l_brace ∷ arrow ∷ [])) e0053 q
    ])
unfolding parse_param_list
parameters-Good fuel q f =
    choice (at l_paren q)
      (λ t. last_any (At-here q) (parse_param_list_with_mode-Good true fuel q f t))
      (λ t. last_any (At-here q) (
        error_recover_until-Good "expected parameter list" (new_set (l_brace ∷ arrow ∷ [])) e0053
          q))

body-Good :
    (fuel : ℕ) (q : Parser)
    → Fit fuel 0 q
    → Good q 0 0 Any (elim (at l_brace q) [
      | true ↦ parse_block_expr fuel q
      | false ↦ error_recover_until "expected function body" empty e0054 q
    ])
body-Good fuel q f =
    choice (at l_brace q) (λ t. (all-Rules fuel).block q f (Starts-at q l_brace t refl refl))
      (λ t. last_any (At-here q) (error_recover_until-Good "expected function body" empty e0054 q))

parse_fn_def-Good : (fuel : ℕ) (p : Parser) → Fit fuel 0 p → Good p 0 0 Any (parse_fn_def fuel p)
unfolding parse_fn_def
parse_fn_def-Good fuel p f =
    seq (At-start fn_def (At-here p)) (visible-Good (record p { events = start fn_def ∷ p.events }))
      (λ _ q a _.
        let u = a.used in
        seq a (modifiers-Good fuel q (omega arith)) (λ _ q a _.
          seq a (must-Good fn_kw q refl) (λ _ q a _. seq a (name-Good q) (λ _ q a _.
            let u = a.used in
            seq a (parameters-Good fuel q (omega arith)) (λ _ q a _.
              let u = a.used in
              seq a
                (optional (at arrow q)
                  (λ t. last_any (At-here q) (parse_return_type-Good fuel q (omega arith) t)))
                (λ _ q a _.
                  let u = a.used in
                  seq a (body-Good fuel q (omega arith)) (λ _ q a _. finished (omega arith) a)))))))

top_level_at-Good :
    (fuel : ℕ) (k : SyntaxKind) (p : Parser)
    → Fit fuel 1 p
    → Ready p
    → Good p 0 0 Any (top_level_at fuel k p)
unfolding top_level_at
top_level_at-Good fuel fn_kw p f ready = parse_fn_def-Good fuel p (omega arith)
top_level_at-Good fuel async_kw p f ready = parse_fn_def-Good fuel p (omega arith)
top_level_at-Good fuel pure_kw p f ready = parse_fn_def-Good fuel p (omega arith)
top_level_at-Good fuel type_kw p f ready = parse_type_def-Good fuel p (omega arith)
top_level_at-Good fuel pub_kw p f ready =
    choice (same_kind (nth 1 p) type_kw) (λ t. parse_type_def-Good fuel p (omega arith))
      (λ t. parse_fn_def-Good fuel p (omega arith))
top_level_at-Good fuel import_kw p f ready = parse_import-Good fuel p (omega arith) ready
top_level_at-Good fuel from_kw p f ready = parse_from_python_import-Good p ready
top_level_at-Good fuel let_kw p f ready = error_recover-Good "not yet implemented" e0062 p
top_level_at-Good fuel _ p f ready = error_recover-Good "expected item definition" e0051 p

source_loop-Good :
    (fuel : ℕ) (p : Parser)
    → Fit fuel 2 p
    → Good p 0 0 (λ _ q. at_eof q ≡ true) (source_loop fuel p)
unfolding source_loop parse_top_level
source_loop-Good zero p f = absurd (omega arith)
source_loop-Good (suc fuel) p f =
    split (not (at_eof p))
      (λ t.
        let ready = Ready-not_eof p (ground (arith, t)) in
        seq (At-here p) (top_level_at-Good fuel (current p) p (omega arith) ready) (λ x q a _.
          seq a (refuse-Good "unexpected token" e0051 a ready) (λ y r b l.
            last_step b (omega arith) (source_loop-Good fuel r (omega arith)) (λ z s c e. e))))
      (λ t. ends (At-here p) (ground (arith, t)))

-- What the rule for a source file leaves: the end of the input, with no trivia before it.
pub record Whole (q : Parser) : Type 0 where
  pub end : at_eof q ≡ true
  pub head : NoTriviaFirst q.rest

pub parse_source_file-Good :
    (fuel : ℕ) (p : Parser) → Fit fuel 2 p → Good p 0 0 (λ _ q. Whole q) (parse_source_file fuel p)
unfolding parse_source_file
parse_source_file-Good fuel p f =
    seq (At-start source_file (At-here p)) (source_loop-Good fuel _ f) (λ x q a e.
      seq a (eat_trivia-Good q) (λ y r b eaten.
        ends (At-finish b)
          (record { end = ap (λ k. same_kind k eof) (eaten.ahead 0) ∙ e; head = eaten.head })))
