-- ===== src/Lsp/Positions.antt =====
-- The encoded tokens, decoded as the protocol says, against a walk over the bytes of the source.
use mathlib.Core.List.{Permᴰ}
use asatsuyu.Base.{
  ℕ, ◌+◌, ◌-◌, ◌≤◌, ◌<◌, ◌≡◌, refl, ap, ◌∙◌, some, List, [], ◌∷◌, length, map, ◌==◌, if◌then◌else◌,
  arith, ==_iff, Bool-cases, inl, inr,
}
use asatsuyu.Syntax.Span.{LineCol, LineIndex, u32_mod, new_index, line_col}
use asatsuyu.Syntax.Span.Lines.{walk, at, line_col-walk}
use asatsuyu.Syntax.Span.Walk.{walk-Reached, walk-Ordered}
use asatsuyu.Lsp.Sorting.{From, Within, sort-From, sort-Within, sort-Perm}
use asatsuyu.Lsp.{RawToken, SemanticToken, sort_tokens, encode_from, sort_and_encode, sub_u32}

-- A token at a line and a column, both from zero.
pub record Placed : Type 0 where
  pub line : ℕ
  pub column : ℕ
  pub length : ℕ
  pub token_type : ℕ
  pub modifiers : ℕ

-- A token's line is counted from the line of the one before it, and its column from the one before
-- it where both stand on one line.
unfoldable pub decode_from : ℕ → ℕ → List SemanticToken → List Placed
decode_from line column [] = []
decode_from line column (t ∷ ts) =
    let next = line + t.delta_line in
    let start = if t.delta_line == 0 then column + t.delta_start else t.delta_start in
    record {
      line = next;
      column = start;
      length = t.length;
      token_type = t.token_type;
      modifiers = t.token_modifiers_bitset;
    }
    ∷ decode_from next start ts

abbrev pub decode : List SemanticToken → List Placed
decode = decode_from 0 0

-- Where the bytes before a token lead to.
abbrev pub place : List ℕ → RawToken → Placed
place source t =
    let p = walk source t.start (at 1 1) in
    record {
      line = p.line - 1;
      column = p.column - 1;
      length = t.length;
      token_type = t.token_type;
      modifiers = t.modifiers;
    }

-- The differences that one token is encoded by, decoded.
abbrev line_step : ℕ → ℕ → ℕ
line_step pl ql = sub_u32 (ql - 1) (pl - 1)

abbrev column_step : ℕ → ℕ → ℕ → ℕ → ℕ
column_step pl pc ql qc = if line_step pl ql == 0 then sub_u32 (qc - 1) (pc - 1) else qc - 1

module _ (pl pc ql qc : ℕ) (lines : pl ≤ ql) (first : 1 ≤ pl) (below : ql < u32_mod)
    (columns : pl ≡ ql → pc ≤ qc) (start : 1 ≤ pc) (narrow : qc < u32_mod) where
  line_step_lem : pl - 1 + line_step pl ql ≡ ql - 1
  line_step_lem = omega (arith, lines, first, below)

  column_step_lem :
      (if line_step pl ql == 0 then pc - 1 + column_step pl pc ql qc else column_step pl pc ql qc)
      ≡ qc - 1
  column_step_lem = elim (Bool-cases (line_step pl ql == 0)) [
    | inr other ↦ ground (arith, other)
    | inl same ↦
        let zero_step : line_step pl ql ≡ 0 = (==_iff (line_step pl ql) 0).0 same in
        let one_line : pl ≡ ql = omega (arith, line_step_lem, zero_step, lines, first) in
        let in_order = columns one_line in
        let behind : pc - 1 + sub_u32 (qc - 1) (pc - 1) ≡ qc - 1 =
          omega (arith, in_order, start, narrow) in
        ground (arith, same, behind)
  ]

abbrev token_at : ℕ → ℕ → RawToken → SemanticToken
token_at delta_line delta_start t = record {
  delta_line = delta_line;
  delta_start = delta_start;
  length = t.length;
  token_type = t.token_type;
  token_modifiers_bitset = t.modifiers;
}

encode-next :
    (index : LineIndex) (p q : LineCol) (t : RawToken) (ts : List RawToken)
    → line_col index t.start ≡ some q
    → encode_from index (p.line - 1) (p.column - 1) (t ∷ ts)
      ≡ token_at (line_step p.line q.line) (column_step p.line p.column q.line q.column) t
        ∷ encode_from index (q.line - 1) (q.column - 1) ts
unfolding encode_from
encode-next index p q t ts h = rw (h, encode_from) refl

decode-next :
    (line column delta_line delta_start next start : ℕ) (t : RawToken) (ts : List SemanticToken)
    → line + delta_line ≡ next
    → (if delta_line == 0 then column + delta_start else delta_start) ≡ start
    → decode_from line column (token_at delta_line delta_start t ∷ ts)
      ≡ record {
        line = next;
        column = start;
        length = t.length;
        token_type = t.token_type;
        modifiers = t.modifiers;
      }
        ∷ decode_from next start ts
unfolding decode_from
decode-next line column delta_line delta_start next start t ts e f = rw (e, f) refl

module _ (source : List ℕ) (small : length source + 1 < u32_mod) where
  decode-encode :
      (o : ℕ) (ts : List RawToken)
      → From o ts
      → Within source ts
      → decode_from ((walk source o (at 1 1)).line - 1) ((walk source o (at 1 1)).column - 1) (
          encode_from
            (new_index source)
            ((walk source o (at 1 1)).line - 1)
            ((walk source o (at 1 1)).column - 1)
            ts)
        ≡ map (place source) ts
  unfolding decode_from encode_from
  decode-encode o [] f w = refl
  decode-encode o (t ∷ ts) (le, f) (inside, w) =
      let here = line_col-walk source t.start small inside in
      let p = walk-Reached source o 1 1 (omega arith) in
      let q = walk-Reached source t.start 1 1 (omega arith) in
      let order = walk-Ordered source o t.start 1 1 (omega arith) le in
      let ih = decode-encode t.start ts f w in
      let a = walk source o (at 1 1) in
      let b = walk source t.start (at 1 1) in
      let first : 1 ≤ a.line = omega (arith, p.lower) in
      let below : b.line < u32_mod = omega (arith, q.upper, small) in
      let narrow : b.column < u32_mod = omega (arith, q.width, small) in
      let line =
        line_step_lem a.line a.column b.line b.column order.lines first below order.columns p.first
          narrow in
      let column =
        column_step_lem a.line a.column b.line b.column order.lines first below order.columns
          p.first narrow in
      ap (decode_from (a.line - 1) (a.column - 1)) (encode-next (new_index source) a b t ts here)
      ∙ decode-next (a.line - 1) (a.column - 1) (line_step a.line b.line)
          (column_step a.line a.column b.line b.column) (b.line - 1) (b.column - 1) t
          (encode_from (new_index source) (b.line - 1) (b.column - 1) ts) line column
      ∙ ap (λ placed. place source t ∷ placed) ih

-- For a source of fewer than 2^32 - 1 bytes and tokens that start within it, decoding the encoded
-- tokens with plain addition gives the tokens in some order of their starts, none lost or added,
-- each at the line and column, from zero, to which a walk over the bytes before it leads: so no
-- difference wraps.
pub decode-sort_and_encode :
    (source : List ℕ) (tokens : List RawToken)
    → length source + 1 < u32_mod
    → Within source tokens
    → (sorted : List RawToken) × Permᴰ sorted tokens
      × From 0 sorted
      × (decode (sort_and_encode tokens (new_index source)) ≡ map (place source) sorted)
unfolding walk
decode-sort_and_encode source tokens small w = (
  sort_tokens tokens,
  sort-Perm tokens,
  sort-From tokens,
  decode-encode source small 0 (sort_tokens tokens) (sort-From tokens)
      (sort-Within source tokens w),
)
