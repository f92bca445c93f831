-- ===== src/Syntax/Span/Range.antt =====
-- Spans as half-open ranges.
use asatsuyu.Base.{ℕ, ◌+◌, ◌-◌, ◌≤◌, ◌<◌, ◌≡◌, ◌↔◌, true, false, arith}
use asatsuyu.Syntax.Span.{Span, u32_mod, len, is_empty, contains}

-- For a span whose start does not exceed its end, `contains` accepts exactly the offsets
-- `start + i` with `i < len`.
pub contains_iff :
    (s : Span) (offset : ℕ)
    → s.start ≤ s.end
    → s.end < u32_mod
    → (contains s offset ≡ true) ↔ ((i : ℕ) × (i < len s) × (offset ≡ s.start + i))
unfolding contains len
contains_iff s offset h b =
    (λ c. (offset - s.start, ground arith, ground arith), λ (i, lt, e). ground arith)

-- A span whose start does not exceed its end is empty exactly if it contains no offset.
pub is_empty_iff :
    (s : Span) → s.start ≤ s.end → (is_empty s ≡ true) ↔ ((o : ℕ) → contains s o ≡ false)
unfolding contains is_empty
is_empty_iff s h = (λ e o. ground arith, λ all. ground (arith, all s.start))
