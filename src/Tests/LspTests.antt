-- ===== src/Tests/LspTests.antt =====
-- The source "a\nbc" with tokens at 3 and at 0, collected in that order.
use mathlib.Core.List.{Permᴰ}
use asatsuyu.Base.{ℕ, ◌≡◌, List, [], ◌∷◌, map, arith}
use asatsuyu.Syntax.Span.{new_index}
use asatsuyu.Lsp.{RawToken, sort_and_encode}
use asatsuyu.Lsp.Sorting.{From}
use asatsuyu.Lsp.Positions.{decode, place, decode-sort_and_encode}

abbrev text : List ℕ
text = b'a' ∷ b'\n' ∷ b'b' ∷ b'c' ∷ []

abbrev token_from : ℕ → RawToken
token_from start = record { start = start; length = 1; token_type = 5; modifiers = 2 }

abbrev collected : List RawToken
collected = token_from 3 ∷ token_from 0 ∷ []

decode-sort_and_encode_example :
    (sorted : List RawToken) × Permᴰ sorted collected
    × From 0 sorted
    × (decode (sort_and_encode collected (new_index text)) ≡ map (place text) sorted)
decode-sort_and_encode_example =
    decode-sort_and_encode text collected (omega arith) (omega arith, (omega arith, tt))
