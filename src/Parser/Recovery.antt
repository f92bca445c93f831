-- ===== src/Parser/Recovery.antt =====
-- The steps that expect a token and that recover from errors.
use asatsuyu.Base.{
  ℕ, zero, suc, ◌+◌, ◌<◌, ◌≡◌, ◌≢◌, refl, sym, ◌∙◌, ap, true, false, not, ◌&&◌, ◌||◌, ◌∷◌, length,
  arith, String,
}
use asatsuyu.Syntax.Kind.{SyntaxKind, same_kind, eof, r_brace, node_error}
use asatsuyu.Syntax.Kind.Laws.{same_kind-eq}
use asatsuyu.Syntax.Diagnostic.{DiagnosticCode}
use asatsuyu.Parser.TokenSet.{TokenSet, contains, union, closing_delimiters, top_level_recovery}
use asatsuyu.Parser.TokenSet.Laws.{contains-union}
use asatsuyu.Parser.State.{Parser, current, at, at_eof, at_any}
use asatsuyu.Parser.Monad.{out_of_fuel, panic, ok}
use asatsuyu.Parser.Core.{
  bump, expect, must, error_and_bump, skip_until, error_recover, error_recover_until, eat_trivia,
  stop_set,
}
use asatsuyu.Parser.Trace.{
  At, At-here, At-start, At-finish, At-report, Good, ends, Any, seq, split, last_kind, last_step,
  At-weaken,
}
use asatsuyu.Parser.Steps.{Ready, Ready-at, Ready-kind, Ready-not_eof, bump-Good, eat_trivia-Good}

-- The last token handed on is no closing brace.
abbrev pub Open : Parser → Type 0
Open p = last_kind p.events ≢ r_brace

pub not_same : (a b : SyntaxKind) → same_kind a b ≡ false → same_kind b b ≡ true → a ≢ b
not_same a b h r e = absurd (cc (h, r, ap (λ k. same_kind k b) e))

-- A token of a kind that is no closing brace, if it comes next, or none.
pub expect-Good :
    (k : SyntaxKind) (p : Parser)
    → same_kind k eof ≡ false
    → Good p 0 0 (λ _ q. Open p → k ≢ r_brace → Open q) (expect k p)
unfolding expect
expect-Good k p e =
    split (at k p)
      (λ h. seq (At-here p) (bump-Good p (Ready-at p k h e)) (λ x q a b.
        ends (At-weaken 0 (omega arith) a)
          (λ o n c. n (sym (same_kind-eq (current p) k h) ∙ sym b.last ∙ c))))
      (λ h. ends (At-report _ (At-here p)) (λ o n. o))

pub must-Good :
    (k : SyntaxKind) (p : Parser)
    → same_kind k eof ≡ false
    → Good p 0 0 (λ _ q. Open p → k ≢ r_brace → Open q) (must k p)
unfolding must
must-Good k p e = seq (At-here p) (expect-Good k p e) (λ x q a o. ends a o)

-- Where the kind comes next its token is consumed.
expect-at :
    (k : SyntaxKind) (p : Parser)
    → same_kind k eof ≡ false
    → at k p ≡ true
    → Good p 1 0 Any (expect k p)
unfolding expect
expect-at k p e h =
    split (at k p) (λ t. seq (At-here p) (bump-Good p (Ready-at p k h e)) (λ x q a b. ends a tt))
      (λ t. absurd (cc (h, t)))

pub must-at :
    (k : SyntaxKind) (p : Parser)
    → same_kind k eof ≡ false
    → at k p ≡ true
    → Good p 1 0 Any (must k p)
unfolding must
must-at k p e h = seq (At-here p) (expect-at k p e h) (λ x q a o. ends a tt)

pub error_and_bump-Good :
    (message : String) (code : DiagnosticCode) (p : Parser)
    → Ready p
    → Good p 1 0 Any (error_and_bump message code p)
unfolding error_and_bump
error_and_bump-Good message code p ready =
    seq (At-start node_error (At-report _ (At-here p))) (bump-Good _ ready)
      (λ x q a b. ends (At-finish a) tt)

-- Skipped tokens are none of the set to stop at.
pub skip_until-Good :
    (fuel : ℕ) (stop : TokenSet) (p : Parser)
    → length p.rest < fuel
    → Good p 0 0 (λ _ q. contains stop r_brace ≡ true → Open p → Open q) (skip_until fuel stop p)
unfolding skip_until
skip_until-Good zero stop p h = absurd (omega arith)
skip_until-Good (suc fuel) stop p h =
    split (not (at_eof p) && not (at_any stop p))
      (λ t. seq (At-here p) (bump-Good p (Ready-not_eof p (ground (arith, t)))) (λ x q a b.
        last_step a (omega arith) (skip_until-Good fuel stop q (let u = a.used in omega arith))
          (λ y r c keep s o. keep s (λ l.
            let skipped : at_any stop p ≡ false = ground (arith, t) in
            absurd (cc (skipped, s, ap (contains stop) (sym b.last ∙ l)))))))
      (λ t. ends (At-here p) (λ s o. o))

skipped-Good :
    (stop : TokenSet) (o p : Parser)
    → At o 0 0 p
    → (Open o → Open p)
    → Good o 0 0
        (λ _ q. contains stop r_brace ≡ true → Open o → Open q)
        (elim (skip_until
          (length p.rest + 1)
          stop
          (record p { events = asatsuyu.Parser.State.start node_error ∷ p.events })) [
            | out_of_fuel ↦ out_of_fuel
            | panic ↦ panic
            | ok _ q ↦ elim (eat_trivia q) [
              | out_of_fuel ↦ out_of_fuel
              | panic ↦ panic
              | ok _ r ↦ ok tt (record r { events = asatsuyu.Parser.State.finish ∷ r.events })
            ]
          ])
skipped-Good stop o p a keep =
    seq (At-start node_error a) (skip_until-Good _ stop _ (omega arith)) (λ x q b s.
      seq b (eat_trivia-Good q)
        (λ y r c eaten. ends (At-finish c) (λ h u l. s h (keep u) (sym eaten.last ∙ l))))

closing-r_brace : contains closing_delimiters r_brace ≡ true
unfolding contains closing_delimiters
closing-r_brace = refl

stop_set-r_brace : (recovery : TokenSet) → contains (stop_set recovery) r_brace ≡ true
stop_set-r_brace recovery = ground (
  arith,
  contains-union (union recovery closing_delimiters) top_level_recovery r_brace,
  contains-union recovery closing_delimiters r_brace,
  closing-r_brace,
)

pub error_recover-Good :
    (message : String) (code : DiagnosticCode) (p : Parser)
    → Good p 0 0 Any (error_recover message code p)
unfolding error_recover
error_recover-Good message code p =
    last_step (At-here p) (omega arith)
      (skipped-Good top_level_recovery p _ (At-report _ (At-here p)) (λ o. o)) (λ x q a h. tt)

pub error_recover_until-Good :
    (message : String) (recovery : TokenSet) (code : DiagnosticCode) (p : Parser)
    → Good p 0 0 (λ _ q. Open p → Open q) (error_recover_until message recovery code p)
unfolding error_recover_until
error_recover_until-Good message recovery code p =
    split (at_eof p || at_any (stop_set recovery) p) (λ t. ends (At-report _ (At-here p)) (λ o. o))
      (λ t.
        last_step (At-here p) (omega arith)
          (skipped-Good (stop_set recovery) p _ (At-report _ (At-here p)) (λ o. o))
          (λ x q a h. h (stop_set-r_brace recovery)))

-- A token of a kind that is known to come next.
pub bump-at :
    (k : SyntaxKind) (p : Parser)
    → at k p ≡ true
    → same_kind k eof ≡ false
    → Good p 1 0 (λ _ q. k ≢ r_brace → Open q) (bump p)
bump-at k p h e =
    last_step (At-here p) (omega arith) (bump-Good p (Ready-at p k h e))
      (λ x q a b n c. n (sym (same_kind-eq (current p) k h) ∙ sym b.last ∙ c))

-- The next token is there and is no closing brace, unless the input does not end with one.
pub record Starts (p : Parser) : Type 0 where
  pub ready : Ready p
  pub no_brace : current p ≢ r_brace

pub Starts-kind :
    (p : Parser) (k : SyntaxKind)
    → current p ≡ k
    → same_kind k eof ≡ false
    → same_kind k r_brace ≡ false
    → Starts p
Starts-kind p k h e n = record {
  ready = Ready-kind p k h e;
  no_brace = λ c. not_same k r_brace n refl (sym h ∙ c);
}

pub Starts-at :
    (p : Parser) (k : SyntaxKind)
    → at k p ≡ true
    → same_kind k eof ≡ false
    → same_kind k r_brace ≡ false
    → Starts p
Starts-at p k h e n = Starts-kind p k (same_kind-eq (current p) k h) e n

pub bump-on : (p : Parser) → Starts p → Good p 1 0 (λ _ q. Open q) (bump p)
bump-on p s =
    last_step (At-here p) (omega arith) (bump-Good p s.ready)
      (λ x q a b c. s.no_brace (sym b.last ∙ c))

-- The first token of a rule, behind the call that opens its node.
pub bump-in :
    {p : Parser} (k : SyntaxKind)
    → Starts p
    → Good
        (record p { events = asatsuyu.Parser.State.start k ∷ p.events })
        1
        0
        (λ _ q. Open q)
        (bump (record p { events = asatsuyu.Parser.State.start k ∷ p.events }))
bump-in k s = bump-on _ (record { ready = s.ready; no_brace = s.no_brace })
