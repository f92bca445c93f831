-- ===== src/Syntax/Span/Walk.antt =====
-- The walk over the bytes of a source goes forward.
use asatsuyu.Base.{
  ℕ, zero, suc, ◌+◌, ◌≤◌, ◌≡◌, List, [], ◌∷◌, length, ◌==◌, arith, Bool-cases, inl, inr,
}
use asatsuyu.Syntax.Span.{LineCol}
use asatsuyu.Syntax.Span.Lines.{walk, at}

-- A position that is reached from another one, over at most `n` bytes.
pub record Reached (p q : LineCol) (n : ℕ) : Type 0 where
  pub lower : p.line ≤ q.line
  pub upper : q.line ≤ p.line + n
  pub first : 1 ≤ q.column
  pub width : q.column ≤ p.column + n
  pub same : p.line ≡ q.line → p.column ≤ q.column

pub walk-Reached :
    (bytes : List ℕ) (n line column : ℕ)
    → 1 ≤ column
    → Reached (at line column) (walk bytes n (at line column)) (length bytes)
unfolding walk
walk-Reached bytes zero line column h = record {
  lower = omega arith;
  upper = omega arith;
  first = h;
  width = omega arith;
  same = λ e. omega arith;
}
walk-Reached [] (suc n) line column h = record {
  lower = omega arith;
  upper = omega arith;
  first = h;
  width = omega arith;
  same = λ e. omega arith;
}
walk-Reached (byte ∷ bytes) (suc n) line column h = elim (Bool-cases (byte == b'\n')) [
  | inl newline ↦
      let r = walk-Reached bytes n (line + 1) 1 (omega arith) in
      rw (newline, walk)
        (record {
          lower = omega (arith, r.lower);
          upper = omega (arith, r.upper);
          first = r.first;
          width = omega (arith, r.width);
          same = λ e. omega (arith, r.lower);
        })
  | inr other ↦
      let r = walk-Reached bytes n line (column + 1) (omega arith) in
      rw (other, walk)
        (record {
          lower = r.lower;
          upper = omega (arith, r.upper);
          first = r.first;
          width = omega (arith, r.width);
          same = λ e. omega (arith, r.same e);
        })
]

-- A position that is not before another.
pub record Ordered (p q : LineCol) : Type 0 where
  pub lines : p.line ≤ q.line
  pub columns : p.line ≡ q.line → p.column ≤ q.column

pub walk-Ordered :
    (bytes : List ℕ) (m n line column : ℕ)
    → 1 ≤ column
    → m ≤ n
    → Ordered (walk bytes m (at line column)) (walk bytes n (at line column))
unfolding walk
walk-Ordered bytes zero n line column h le =
    let r = walk-Reached bytes n line column h in record { lines = r.lower; columns = r.same }
walk-Ordered bytes (suc m) zero line column h le = absurd (omega arith)
walk-Ordered [] (suc m) (suc n) line column h le = record {
  lines = omega arith;
  columns = λ e. omega arith;
}
walk-Ordered (byte ∷ bytes) (suc m) (suc n) line column h le = elim (Bool-cases (byte == b'\n')) [
  | inl newline ↦
      rw (newline, walk) (walk-Ordered bytes m n (line + 1) 1 (omega arith) (omega arith))
  | inr other ↦
      rw (other, walk) (walk-Ordered bytes m n line (column + 1) (omega arith) (omega arith))
]
