-- ===== src/Syntax/Span.antt =====
-- asatsuyu/crates/asatsuyu-syntax/src/span.rs: byte ranges, and the index of line starts. Offsets
-- are `u32`, so each cast and subtraction is written modulo 2^32.
pub mod Range
pub mod Lines
pub mod Walk
use asatsuyu.Base.{
  ℕ, zero, suc, ◌+◌, ◌-◌, ◌%◌, Bool, true, false, ◌&&◌, Option, none, some, List, [], ◌∷◌, ltb, leb,
  ◌==◌, if◌then◌else◌, length, get_or,
}

-- 2^32
abbrev pub u32_mod : ℕ
u32_mod = 4294967296

pub record Span : Type 0 where
  pub file_id : ℕ
  pub start : ℕ
  pub end : ℕ

-- `debug_assert!(start <= end)` has no effect on the value.
abbrev pub new_span : ℕ → ℕ → ℕ → Span
new_span file_id start end = record { file_id = file_id; start = start; end = end }

abbrev pub dummy : Span
dummy = new_span 0 0 0

pub len : Span → ℕ
len s = (s.end + u32_mod - s.start) % u32_mod

pub is_empty : Span → Bool
is_empty s = s.start == s.end

pub contains : Span → ℕ → Bool
contains s offset = leb s.start offset && ltb offset s.end

pub record LineCol : Type 0 where
  pub line : ℕ
  pub column : ℕ

pub record LineIndex : Type 0 where
  pub line_starts : List ℕ
  pub source_len : ℕ

-- What the loop of `LineIndex::new` pushes for the bytes from index `i` on.
pub newline_starts : ℕ → List ℕ → List ℕ
newline_starts i [] = []
newline_starts i (byte ∷ source) =
    let rest = newline_starts (i + 1) source in
    if byte == b'\n' then ((i + 1) % u32_mod) ∷ rest else rest

pub new_index : List ℕ → LineIndex
unfolding newline_starts
new_index source = record {
  line_starts = 0 ∷ newline_starts 0 source;
  source_len = length source % u32_mod;
}

-- `partition_point(|&start| start <= offset)`: how many leading entries pass the test.
pub partition_point : ℕ → List ℕ → ℕ
partition_point offset [] = 0
partition_point offset (start ∷ starts) =
    let rest = partition_point offset starts in if leb start offset then suc rest else 0

-- The count is at most the length, so `get_or` never gives its default.
pub line_col : LineIndex → ℕ → Option LineCol
unfolding partition_point
line_col index offset =
    if ltb index.source_len offset
    then none
    else let line_idx = partition_point offset index.line_starts in
      if line_idx == 0
      then none
      else let line_start = get_or index.line_starts (line_idx - 1) 0 in
        some (record {
          line = ((line_idx - 1) % u32_mod + 1) % u32_mod;
          column = ((offset + u32_mod - line_start) % u32_mod + 1) % u32_mod;
        })
