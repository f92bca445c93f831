-- ===== src/Lsp/Sorting.antt =====
-- The sorted tokens are the given ones in the order of their starts.
use mathlib.Core.List.{Permᴰ}
use mathlib.Core.List.Permᴰ
use asatsuyu.Base.{
  ℕ, ◌≤◌, ◌≡◌, refl, false, List, [], ◌∷◌, length, All, arith, leb, leb→le, Bool-cases, inl, inr,
}
use asatsuyu.Lsp.{RawToken, insert_token, sort_tokens}

-- The tokens start from `o` on, none before the one that it follows.
abbrev pub From : ℕ → List RawToken → Type 0
From o [] = Unit
From o (t ∷ ts) = (o ≤ t.start) × From t.start ts

-- The tokens start within the source.
abbrev pub Within : List ℕ → List RawToken → Type 0
Within source = All (λ t. t.start ≤ length source)

insert-From :
    (o : ℕ) (t : RawToken) (ts : List RawToken)
    → o ≤ t.start
    → From o ts
    → From o (insert_token t ts)
unfolding insert_token
insert-From o t [] h f = (h, tt)
insert-From o t (u ∷ us) h (g, f) = elim (Bool-cases (leb t.start u.start)) [
  | inl e ↦ rw (e, insert_token) (h, (leb→le t.start u.start e, f))
  | inr e ↦ rw (e, insert_token) (g, insert-From u.start t us (after t.start u.start e) f)
]
  where
    after : (m n : ℕ) → leb m n ≡ false → n ≤ m
    after m n e = ground arith

pub sort-From : (ts : List RawToken) → From 0 (sort_tokens ts)
unfolding sort_tokens
sort-From [] = tt
sort-From (t ∷ ts) = insert-From 0 t (sort_tokens ts) (omega arith) (sort-From ts)

insert-Within :
    (source : List ℕ) (t : RawToken) (ts : List RawToken)
    → t.start ≤ length source
    → Within source ts
    → Within source (insert_token t ts)
unfolding insert_token
insert-Within source t [] h w = (h, tt)
insert-Within source t (u ∷ us) h (g, w) = elim (Bool-cases (leb t.start u.start)) [
  | inl e ↦ rw (e, insert_token) (h, (g, w))
  | inr e ↦ rw (e, insert_token) (g, insert-Within source t us h w)
]

pub sort-Within :
    (source : List ℕ) (ts : List RawToken) → Within source ts → Within source (sort_tokens ts)
unfolding sort_tokens
sort-Within source [] w = tt
sort-Within source (t ∷ ts) (h, w) =
    insert-Within source t (sort_tokens ts) h (sort-Within source ts w)

insert-Perm : (t : RawToken) (ts : List RawToken) → Permᴰ (insert_token t ts) (t ∷ ts)
unfolding insert_token
insert-Perm t [] = Permᴰ.refl (t ∷ [])
insert-Perm t (u ∷ us) = elim (Bool-cases (leb t.start u.start)) [
  | inl e ↦ rw (e, insert_token) (Permᴰ.refl (t ∷ u ∷ us))
  | inr e ↦
      rw (e, insert_token) (Permᴰ.trans (Permᴰ.cons refl (insert-Perm t us)) (Permᴰ.swap refl refl))
]

pub sort-Perm : (ts : List RawToken) → Permᴰ (sort_tokens ts) ts
unfolding sort_tokens
sort-Perm [] = Permᴰ.nil
sort-Perm (t ∷ ts) = Permᴰ.trans (insert-Perm t (sort_tokens ts)) (Permᴰ.cons refl (sort-Perm ts))
