-- ===== src/Syntax/Span/Lines.antt =====
-- The line index against a scan of the source byte by byte.
use asatsuyu.Base.{
  ℕ, zero, suc, ◌+◌, ◌-◌, ◌≤◌, ◌<◌, ◌≡◌, refl, none, some, List, [], ◌∷◌, ◌==◌, if◌then◌else◌,
  length, get_or, arith, Bool-cases, inl, inr,
}
use asatsuyu.Syntax.Span.{LineCol, u32_mod, newline_starts, new_index, partition_point, line_col}

-- The reference: walk `offset` bytes from a position, starting a line after each newline.
unfoldable pub walk : List ℕ → ℕ → LineCol → LineCol
walk bytes zero p = p
walk [] (suc offset) p = p
walk (byte ∷ bytes) (suc offset) p = walk bytes offset (
    if byte == b'\n'
    then record { line = p.line + 1; column = 1 }
    else record { line = p.line; column = p.column + 1 })

-- Line starts lie behind the bytes that are read.
none_before :
    (offset i : ℕ) (bytes : List ℕ)
    → offset ≤ i
    → i + length bytes < u32_mod
    → partition_point offset (newline_starts i bytes) ≡ 0
unfolding partition_point newline_starts
none_before offset i [] h b = refl
none_before offset i (byte ∷ bytes) h b =
    ground (arith, none_before offset (i + 1) bytes (omega arith) (omega arith))

abbrev pub at : ℕ → ℕ → LineCol
at line column = record { line = line; column = column }

-- The start of the line that holds `offset`, where the line before the newlines began at `s`.
abbrev start_of : ℕ → ℕ → List ℕ → ℕ
start_of offset s starts = get_or (s ∷ starts) (partition_point offset starts) 0

-- The walk from byte `i`, in a line that began at `s`, against the line starts of the rest.
record IsAt (bytes : List ℕ) (o i s l offset : ℕ) : Type 0 where
  place :
      walk bytes o (at l (i - s + 1))
      ≡ at
          (l + partition_point offset (newline_starts i bytes))
          (offset - start_of offset s (newline_starts i bytes) + 1)
  below : start_of offset s (newline_starts i bytes) ≤ offset
  lines : partition_point offset (newline_starts i bytes) ≤ length bytes

walk-IsAt :
    (bytes : List ℕ) (o i s l offset : ℕ)
    → i + o ≡ offset
    → s ≤ i
    → o ≤ length bytes
    → i + length bytes < u32_mod
    → IsAt bytes o i s l offset
unfolding walk partition_point newline_starts
walk-IsAt bytes zero i s l offset e h lt b =
    ground (arith, none_before offset i bytes (omega arith) b)
walk-IsAt [] (suc o) i s l offset e h lt b = absurd (omega arith)
walk-IsAt (byte ∷ bytes) (suc o) i s l offset e h lt b = elim (Bool-cases (byte == b'\n')) [
  | inl newline ↦ ground (
    arith,
    walk-IsAt bytes o (i + 1) (i + 1) (l + 1) offset (omega arith) (omega arith) (omega arith)
        (omega arith),
  )
  | inr other ↦ ground (
    arith,
    walk-IsAt bytes o (i + 1) s l offset (omega arith) (omega arith) (omega arith) (omega arith),
  )
]

-- For a source of fewer than 2^32 - 1 bytes, the line and column of an offset up to its length
-- are those that a walk over the bytes before it counts, a newline starting the next line at
-- column 1.
pub line_col-walk :
    (source : List ℕ) (offset : ℕ)
    → length source + 1 < u32_mod
    → offset ≤ length source
    → line_col (new_index source) offset ≡ some (walk source offset (at 1 1))
unfolding line_col new_index
line_col-walk source offset b h =
    ground (arith, walk-IsAt source offset 0 0 1 offset (omega arith) (omega arith) h (omega arith))

-- For a source below 4 GiB, an offset beyond its end has no line and column.
pub line_col-beyond :
    (source : List ℕ) (offset : ℕ)
    → length source < u32_mod
    → length source < offset
    → line_col (new_index source) offset ≡ none
unfolding line_col new_index
line_col-beyond source offset b h = ground arith
