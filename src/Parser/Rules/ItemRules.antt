-- ===== src/Parser/Rules/ItemRules.antt =====
-- The rules for type definitions and imports of asatsuyu/crates/asatsuyu-parser/src/grammar.rs end
-- well.
pub mod FileRules
use asatsuyu.Base.{
  ℕ, zero, suc, ◌+◌, ◌*◌, ◌≤◌, ◌<◌, ◌≡◌, ◌≢◌, refl, ap, ◌∙◌, sym, Bool, true, false, not, ◌&&◌,
  List, [], ◌∷◌, length, arith, String,
}
use asatsuyu.Syntax.Kind.{
  SyntaxKind, same_kind, ident, l_paren, r_paren, colon, l_brace, r_brace, type_param, variant,
  field, eof, type_def, pub_kw, type_kw, visibility, import_stmt, from_python_import_stmt, dot,
  as_kw, python_kw, import_kw,
}
use asatsuyu.Syntax.Diagnostic.{DiagnosticCode, e0057, e0058, e0061}
use asatsuyu.Parser.TokenSet.{empty}
use asatsuyu.Parser.State.{start, Parser, at, at_eof, nth, current}
use asatsuyu.Parser.Monad.{M, Outcome, out_of_fuel, panic, ok}
use asatsuyu.Parser.Core.{bump, expect, error_recover_until}
use asatsuyu.Parser.Grammar.{parse_type_expr}
use asatsuyu.Parser.Grammar.Items.{
  parse_visibility, parse_type_param, parse_type_param_list, parse_record_field,
  parse_variant_field, parse_variant, at_label, in_type_body, body_loop, parse_type_body,
  parse_type_def, import_alias, import_path, parse_import, parse_from_python_import,
}
use asatsuyu.Parser.Trace.{
  At, At-here, At-start, Good, panics, ends, Any, seq, split, finished, last_any, ended, optional,
  choice,
}
use asatsuyu.Parser.Steps.{Ready, Ready-at, Ready-not_eof, bump-Good}
use asatsuyu.Parser.Recovery.{
  Open, Starts, Starts-at, bump-in, must-Good, must-at, expect-Good, error_and_bump-Good, bump-at,
  error_recover_until-Good,
}
use asatsuyu.Parser.Rules.{paren_items-Good, parse_type_expr-Good}

pub parse_visibility-Good : (p : Parser) → Ready p → Good p 0 0 Any (parse_visibility p)
unfolding parse_visibility
parse_visibility-Good p ready =
    seq (At-start visibility (At-here p)) (bump-Good _ ready) (λ x q a b. finished (omega arith) a)

pub visible-Good :
    (p : Parser)
    → Good p 0 0 Any (elim (at pub_kw p) [ true ↦ parse_visibility p | false ↦ ok tt p ])
visible-Good p = optional (at pub_kw p) (λ t. parse_visibility-Good p (Ready-at p pub_kw t refl))

parse_type_param-Good : (p : Parser) → Good p 0 0 Any (parse_type_param p)
unfolding parse_type_param
parse_type_param-Good p =
    seq (At-start type_param (At-here p)) (must-Good ident _ refl)
      (λ x q a b. finished (omega arith) a)

parse_record_field-Good :
    (fuel : ℕ) (p : Parser)
    → length p.rest < fuel
    → at ident p ≡ true
    → Good p 1 0 Any (parse_record_field fuel p)
unfolding parse_record_field
parse_record_field-Good fuel p f t =
    seq (At-start field (At-here p)) (must-at ident _ refl t) (λ x q a _.
      seq a (must-Good colon q refl) (λ y r b _.
        let u = b.used in
        seq b (parse_type_expr-Good fuel r (omega arith)) (λ z s c _. finished (omega arith) c)))

label-Good :
    (p : Parser)
    → Good p 0 0 Any (elim (at_label p) [
      | true ↦ elim (bump p) [ out_of_fuel ↦ out_of_fuel | panic ↦ panic | ok _ q ↦ bump q ]
      | false ↦ ok tt p
    ])
label-Good p = optional (at_label p) (λ t.
    seq (At-here p) (bump-Good p (Ready-at p ident (ground (arith, t)) refl)) (λ x q a b.
      let follows : same_kind (nth 1 p) colon ≡ true = ground (arith, t) in
      last_any a (bump-at colon q (ap (λ k. same_kind k colon) (b.ahead 0) ∙ follows) refl)))

parse_variant_field-Good :
    (fuel : ℕ) (p : Parser) → length p.rest < fuel → Good p 0 0 Any (parse_variant_field fuel p)
unfolding parse_variant_field
parse_variant_field-Good fuel p f =
    seq (At-start field (At-here p)) (label-Good (record p { events = start field ∷ p.events }))
      (λ x q a _.
        let u = a.used in
        seq a (parse_type_expr-Good fuel q (omega arith)) (λ z s c _. finished (omega arith) c))

parse_variant-Good :
    (fuel : ℕ) (p : Parser)
    → length p.rest < fuel
    → at ident p ≡ true
    → Good p 1 0 Any (parse_variant fuel p)
unfolding parse_variant
parse_variant-Good fuel p f t =
    seq (At-start variant (At-here p)) (must-at ident _ refl t) (λ x q a _.
      let u = a.used in
      seq a
        (optional (at l_paren q) (λ s.
          paren_items-Good (length q.rest) (parse_variant_field fuel)
            (λ r l ready. parse_variant_field-Good fuel r (omega arith)) fuel q (omega arith)
            (omega arith) s))
        (λ y r b _. finished (omega arith) b))

-- The loop over the fields or variants, where the rule consumes an identifier.
body_loop-Good :
    (rule : ℕ → M (Unit {0})) (message : String)
    → ((fuel : ℕ) (p : Parser)
        → length p.rest < fuel
        → at ident p ≡ true
        → Good p 1 0 Any (rule fuel p))
    → (fuel : ℕ) (p : Parser) → length p.rest + 1 < fuel
    → Good p 0 0 Any (body_loop rule message fuel p)
unfolding body_loop
body_loop-Good rule message h zero p f = absurd (omega arith)
body_loop-Good rule message h (suc fuel) p f =
    choice (in_type_body p)
      (λ t.
        seq (At-here p) (item (at ident p) refl (Ready-not_eof p (ground (arith, t)))) (λ x q a _.
          let u = a.used in last_any a (body_loop-Good rule message h fuel q (omega arith))))
      (λ t. ends (At-here p) tt)
  where
    item :
        (b : Bool)
        → at ident p ≡ b
        → Ready p
        → Good p 1 0 Any (elim b [
          | true ↦ rule fuel p
          | false ↦ asatsuyu.Parser.Core.error_and_bump message e0057 p
        ])
    item true e ready = h fuel p (omega arith) e
    item false e ready = error_and_bump-Good message e0057 p ready

parse_type_body-Good :
    (fuel : ℕ) (p : Parser) → length p.rest + 1 < fuel → Good p 0 0 Any (parse_type_body fuel p)
unfolding parse_type_body
parse_type_body-Good fuel p f =
    choice (at r_brace p) (λ t. ends (At-here p) tt)
      (λ t.
        choice (at_label p)
          (λ s.
            body_loop-Good parse_record_field "expected field definition" parse_record_field-Good
              fuel p f)
          (λ s.
            body_loop-Good parse_variant "expected variant definition" parse_variant-Good fuel p f))

pub parse_type_def-Good :
    (fuel : ℕ) (p : Parser) → length p.rest + 1 < fuel → Good p 0 0 Any (parse_type_def fuel p)
unfolding parse_type_def parse_type_param_list
parse_type_def-Good fuel p f =
    seq (At-start type_def (At-here p))
      (visible-Good (record p { events = start type_def ∷ p.events }))
      (λ x q a _. seq a (must-Good type_kw q refl) (λ y r b _.
        seq b (must-Good ident r refl) (λ z s c _.
          let u = c.used in
          seq c
            (optional (at l_paren s) (λ t.
              paren_items-Good (length s.rest) parse_type_param
                (λ v l ready. parse_type_param-Good v) fuel s (omega arith) (omega arith) t))
            (λ _ w d _.
              let v = d.used in
              seq d
                (choice (at l_brace w)
                  (λ t. seq (At-here w) (bump-at l_brace w t refl) (λ _ w2 e _.
                    let l = e.used in
                    seq e (parse_type_body-Good fuel w2 (omega arith))
                      (λ _ w3 g _. last_any g (must-Good r_brace w3 refl))))
                  (λ t.
                    last_any (At-here w)
                      (error_recover_until-Good "expected type body" empty e0058 w)))
                (λ _ w2 e _. finished (omega arith) e)))))

-- An expected token and what follows it, or recovery.
expect_or-Good :
    (k : SyntaxKind) (message : String) (rest : M (Unit {0})) (p : Parser)
    → same_kind k eof ≡ false
    → ((q : Parser) → length q.rest ≤ length p.rest → Good q 0 0 Any (rest q))
    → Good p 0 0 Any (elim (expect k p) [
      | out_of_fuel ↦ out_of_fuel
      | panic ↦ panic
      | ok found q ↦ elim found [
        | true ↦ rest q
        | false ↦ error_recover_until message empty e0061 q
      ]
    ])
expect_or-Good k message rest p e h = seq (At-here p) (expect-Good k p e) (λ found q a _.
    let u = a.used in
    last_any a (
      choice found (λ t. h q (omega arith))
        (λ t. last_any (At-here q) (error_recover_until-Good message empty e0061 q))))

import_alias-Good : (p : Parser) → Good p 0 0 Any (import_alias p)
unfolding import_alias
import_alias-Good p = optional (at as_kw p) (λ t.
    seq (At-here p) (bump-at as_kw p t refl) (λ x q a _. last_any a (
      expect_or-Good ident "expected alias name after `as`" (λ p. ok tt p) q refl
        (λ r l. ends (At-here r) tt))))

import_path-Good :
    (fuel : ℕ) (p : Parser) → length p.rest < fuel → Good p 0 0 Any (import_path fuel p)
unfolding import_path
import_path-Good zero p f = absurd (omega arith)
import_path-Good (suc fuel) p f =
    choice (at dot p)
      (λ t. seq (At-here p) (bump-at dot p t refl) (λ x q a _.
        let u = a.used in
        last_any a (
          expect_or-Good ident "expected module name after `.`" (import_path fuel) q refl
            (λ r l. import_path-Good fuel r (omega arith)))))
      (λ t. import_alias-Good p)

pub parse_import-Good :
    (fuel : ℕ) (p : Parser) → length p.rest < fuel → Ready p → Good p 0 0 Any (parse_import fuel p)
unfolding parse_import
parse_import-Good fuel p f ready =
    seq (At-start import_stmt (At-here p)) (bump-Good _ ready) (λ x q a _.
      let u = a.used in
      seq a
        (expect_or-Good ident "expected module name" (import_path fuel) q refl
          (λ r l. import_path-Good fuel r (omega arith)))
        (λ y r b _. finished (omega arith) b))

pub parse_from_python_import-Good :
    (p : Parser) → Ready p → Good p 0 0 Any (parse_from_python_import p)
unfolding parse_from_python_import
parse_from_python_import-Good p ready =
    seq (At-start from_python_import_stmt (At-here p)) (bump-Good _ ready) (λ x q a _.
      seq a
        (choice (at python_kw q)
          (λ t. seq (At-here q) (bump-at python_kw q t refl) (λ y r b _. last_any b (
            expect_or-Good import_kw "expected `import` after `from python`"
              (λ p. elim (expect ident p) [
                | out_of_fuel ↦ out_of_fuel
                | panic ↦ panic
                | ok found q ↦ elim found [
                  | true ↦ import_alias q
                  | false ↦ error_recover_until "expected module name after `import`" empty e0061 q
                ]
              ])
              r refl
              (λ s l.
                expect_or-Good ident "expected module name after `import`" import_alias s refl
                  (λ v m. import_alias-Good v)))))
          (λ t.
            last_any (At-here q)
              (error_recover_until-Good "expected `python` after `from`" empty e0061 q)))
        (λ y r b _. finished (omega arith) b))
