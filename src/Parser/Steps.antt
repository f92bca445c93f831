-- ===== src/Parser/Steps.antt =====
-- The steps of the parser keep the tokens and the nesting of the nodes.
use asatsuyu.Base.{
  ℕ, suc, ◌≡◌, ◌≢◌, refl, sym, ◌∙◌, ap, ◌⊎◌, inl, inr, Bool, true, false, not, ◌||◌, List, [], ◌∷◌,
  length, arith, Bool-cases,
}
use asatsuyu.Syntax.Kind.{SyntaxKind, same_kind, is_trivia, eof, r_brace}
use asatsuyu.Syntax.Kind.Laws.{same_kind-eq}
use asatsuyu.Lexer.{Token}
use asatsuyu.Parser.State.{Parser, nth_kind, nth, current, at, at_eof}
use asatsuyu.Parser.Monad.{panic, ok}
use asatsuyu.Parser.Core.{take_token, eat_loop, eat_trivia, bump}
use asatsuyu.Parser.Trace.{
  At, At-here, At-trans, Good, panics, ends, seq, split, closing, last_kind, end_kind, same,
  add_token, last_step, At-weaken, end_tokens,
}

-- At the end of the input the input does not end with a closing brace, or it is not the end.
abbrev pub Ready : Parser → Type 0
Ready p = at_eof p ≡ true → closing p ≢ r_brace

pub Ready-kind : (p : Parser) (k : SyntaxKind) → current p ≡ k → same_kind k eof ≡ false → Ready p
Ready-kind p k e h t = absurd (cc (t, ap (λ j. same_kind j eof) e, h))

pub Ready-at : (p : Parser) (k : SyntaxKind) → at k p ≡ true → same_kind k eof ≡ false → Ready p
Ready-at p k h e = Ready-kind p k (same_kind-eq (current p) k h) e

pub Ready-not_eof : (p : Parser) → at_eof p ≡ false → Ready p
Ready-not_eof p h t = absurd (cc (h, t))

end_kind-eof :
    (k : SyntaxKind) (ts : List Token) → same_kind (nth_kind ts 0) eof ≡ true → end_kind k ts ≡ k
end_kind-eof k [] h = refl
end_kind-eof k (t ∷ ts) h = elim (Bool-cases (is_trivia t.kind)) [
  | inl e ↦ rw (e, end_kind) (end_kind-eof k ts (rw (e, nth_kind) at h))
  | inr e ↦
      let hs : same_kind t.kind eof ≡ true = rw (e, nth_kind) at h in rw (e, hs, end_kind) refl
]

-- Behind a token that is no closing brace there is an expression to come, or the input ends there.
pub Ready-last : (p : Parser) → last_kind p.events ≢ r_brace → Ready p
Ready-last p h t c = h (sym (end_kind-eof (last_kind p.events) p.rest t) ∙ c)

or_false : (b : Bool) → (b || false) ≡ b
or_false true = refl
or_false false = refl

take_token-At :
    (p : Parser) (t : Token) (ts : List Token)
    → p.rest ≡ t ∷ ts
    → (is_trivia t.kind || not (same_kind t.kind eof)) ≡ true
    → At p 1 0 (take_token t ts p)
take_token-At p t ts e h = record {
  all = rw e refl;
  closes = moves (is_trivia t.kind) refl (same_kind t.kind eof) refl;
  size = omega (arith, ap length e);
  used = omega (arith, ap length e);
  still = λ h. absurd (omega (arith, ap length e));
  eofs = sym (ap end_tokens e ∙ rw (not_end (Bool-cases (same_kind t.kind eof)), end_tokens) refl);
  nest = add_token same;
}
  where
    not_end :
        (same_kind t.kind eof ≡ true) ⊎ (same_kind t.kind eof ≡ false)
        → same_kind t.kind eof ≡ false
    not_end (inr c) = c
    not_end (inl c) = absurd (
        cc (
          h,
          c,
          ap is_trivia (same_kind-eq t.kind eof c),
          ap (λ b. is_trivia t.kind || not b) c,
          or_false (is_trivia t.kind),
        ))

    moves :
        (b : Bool)
        → is_trivia t.kind ≡ b
        → (c : Bool) → same_kind t.kind eof ≡ c
        → closing (take_token t ts p) ≡ closing p
    moves true eb c ec = rw (e, eb, last_kind, end_kind) refl
    moves false eb false ec = rw (e, eb, ec, last_kind, end_kind) refl
    moves false eb true ec = absurd (cc (h, eb, ec, ap (λ b. b || not (same_kind t.kind eof)) eb))

abbrev pub NoTriviaFirst : List Token → Type 0
NoTriviaFirst [] = Unit
NoTriviaFirst (t ∷ ts) = is_trivia t.kind ≡ false

-- What skipping trivia leaves: the kinds ahead, the last kind handed on, and a rest that does not
-- begin with trivia.
pub record Eaten (p q : Parser) : Type 0 where
  pub reach : At p 0 0 q
  pub ahead : (n : ℕ) → nth n q ≡ nth n p
  pub last : last_kind q.events ≡ last_kind p.events
  pub head : NoTriviaFirst q.rest

pub eat_loop-Eaten : (ts : List Token) (p : Parser) → p.rest ≡ ts → Eaten p (eat_loop ts p)
unfolding eat_loop
eat_loop-Eaten [] p e = record { reach = At-here p; ahead = λ n. refl; last = refl; head = rw e tt }
eat_loop-Eaten (t ∷ ts) p e = elim (Bool-cases (is_trivia t.kind)) [
  | inr h ↦
      rw (h, eat_loop) (record { reach = At-here p; ahead = λ n. refl; last = refl; head = rw e h })
  | inl h ↦
      let later = eat_loop-Eaten ts (take_token t ts p) refl in
      rw (h, eat_loop)
        (record {
          reach =
              At-weaken 0 (omega arith) (At-trans (take_token-At p t ts e (rw h refl)) later.reach);
          ahead = λ n. later.ahead n ∙ rw (e, h, nth_kind) refl;
          last = later.last ∙ rw (h, last_kind) refl;
          head = later.head;
        })
]

pub eat_trivia-Good : (p : Parser) → Good p 0 0 (λ _ q. Eaten p q) (eat_trivia p)
unfolding eat_trivia
eat_trivia-Good p = let eaten = eat_loop-Eaten p.rest p refl in ends eaten.reach eaten

-- What a consumed token leaves: its kind as the last one, and the kinds ahead moved up.
pub record Bumped (p q : Parser) : Type 0 where
  pub last : last_kind q.events ≡ current p
  pub ahead : (n : ℕ) → nth n q ≡ nth (suc n) p

bump_token-Good :
    (p : Parser) (r : List Token)
    → p.rest ≡ r
    → NoTriviaFirst r
    → Ready p
    → Good p 1 0
        (λ _ q. Bumped p q)
        (elim r [
          | [] ↦ panic
          | t ∷ ts ↦ elim (same_kind t.kind eof) [
            | true ↦ panic
            | false ↦ ok tt (take_token t ts p)
          ]
        ])
bump_token-Good p [] e h ready = panics (ready (ap (λ r. same_kind (nth_kind r 0) eof) e))
bump_token-Good p (t ∷ ts) e h ready =
    let here : current p ≡ t.kind = ap (λ r. nth_kind r 0) e ∙ rw (h, nth_kind) refl in
    split (same_kind t.kind eof) (λ c. panics (ready (ap (λ k. same_kind k eof) here ∙ c)))
      (λ c. ends (take_token-At p t ts e (rw (h, c) refl)) (record {
        last = rw (h, last_kind) (sym here);
        ahead = λ n. sym (ap (λ r. nth_kind r (suc n)) e ∙ rw (h, nth_kind) refl);
      }))

-- `bump` panics only at the end of the input.
pub bump-Good : (p : Parser) → Ready p → Good p 1 0 (λ _ q. Bumped p q) (bump p)
unfolding bump
bump-Good p ready = seq (At-here p) (eat_trivia-Good p) (λ x q a eaten.
    last_step a (omega arith)
      (bump_token-Good q q.rest refl eaten.head
        (λ t c. ready (sym (ap (λ k. same_kind k eof) (eaten.ahead 0)) ∙ t) (sym a.closes ∙ c)))
      (λ y r b m. record {
        last = m.last ∙ eaten.ahead 0;
        ahead = λ n. m.ahead n ∙ eaten.ahead (suc n);
      }))
