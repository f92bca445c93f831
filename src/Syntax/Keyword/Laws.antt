-- ===== src/Syntax/Keyword/Laws.antt =====
-- The keyword table is a bijection between texts and keyword kinds.
use text.Mathlib.Text.{◌==◌}
use text.Mathlib.TextEquality.{eq_iff}
use asatsuyu.Base.{
  ◌≡◌, refl, ◌↔◌, some, none, find, ==_iff, find-eq-some, All, All-mem, Option-cases, inl, inr,
  Memᴰ, String,
}
use asatsuyu.Syntax.Kind.Laws.{to_u16_injective}
use asatsuyu.Syntax.Kind.{SyntaxKind, to_u16, same_kind, eof, error}
use asatsuyu.Syntax.Keyword.{KeywordSpec, keywords, kind_of_text, text_of, spec_of_kind}

text_of_entries : All (λ (s : KeywordSpec). text_of s.kind ≡ some s.text) keywords
unfolding text_of spec_of_kind find
text_of_entries = assumption (refl)

kind_of_entries : All (λ (s : KeywordSpec). kind_of_text s.text ≡ some s.kind) keywords
unfolding kind_of_text find
kind_of_entries = assumption (refl)

spec_of_kind_sound :
    (k : SyntaxKind) (s : KeywordSpec)
    → spec_of_kind k ≡ some s
    → Memᴰ s keywords × (to_u16 s.kind ≡ to_u16 k)
unfolding spec_of_kind
spec_of_kind_sound k s h =
    let (m, e) = find-eq-some (λ (t : KeywordSpec). same_kind t.kind k) keywords s h in
    (m, (==_iff _ _).0 e)

-- The end token and the error token have no text.
pub text_of-none : (text_of eof ≡ none) × (text_of error ≡ none)
unfolding text_of spec_of_kind find
text_of-none = (refl, refl)

kind_of_text_sound : (t : String) (k : SyntaxKind) → kind_of_text t ≡ some k → text_of k ≡ some t
unfolding kind_of_text
kind_of_text_sound t k h = elim (Option-cases (find (λ (s : KeywordSpec). s.text == t) keywords)) [
  | inl e ↦ absurd (cc (h, e))
  | inr (s, e) ↦
      let (m, hit) = find-eq-some (λ (u : KeywordSpec). u.text == t) keywords s e in
      let known =
        All-mem (λ (u : KeywordSpec). text_of u.kind ≡ some u.text) keywords text_of_entries m in
      cc (known, (eq_iff s.text t).0 hit, e, h)
]

text_of_sound : (t : String) (k : SyntaxKind) → text_of k ≡ some t → kind_of_text t ≡ some k
unfolding text_of
text_of_sound t k h = elim (Option-cases (spec_of_kind k)) [
  | inl e ↦ absurd (cc (h, e))
  | inr (s, e) ↦
      let (m, same) = spec_of_kind_sound k s e in
      let known =
        All-mem (λ (u : KeywordSpec). kind_of_text u.text ≡ some u.kind) keywords kind_of_entries
          m in
      cc (known, to_u16_injective s.kind k same, e, h)
]

-- `kind_of_text` and `text_of` are inverse to one another: a text is the text of a kind exactly if
-- it lexes to that kind.
pub kind_of_text_iff :
    (t : String) (k : SyntaxKind) → (kind_of_text t ≡ some k) ↔ (text_of k ≡ some t)
kind_of_text_iff t k = (kind_of_text_sound t k, text_of_sound t k)
