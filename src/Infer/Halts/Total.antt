-- ===== src/Infer/Halts/Total.antt =====
-- `resolve` in a well-formed context.
use asatsuyu.Types.{Ty}
use asatsuyu.Infer.{InferCtx, resolve}
use asatsuyu.Infer.Finite.{Finite-IsAcyclic}
use asatsuyu.Infer.Settle.{Settles, resolve-Settles}
use asatsuyu.Infer.WellFormed.{IsWellFormed}

-- In a well-formed context `resolve` ends on every type: from some fuel on it has one result.
pub resolve_total : (c : InferCtx) (t : Ty) → IsWellFormed c → Settles (λ g. resolve g c.subst t)
resolve_total c t w = resolve-Settles c.subst (Finite-IsAcyclic c.subst w.acyclic t)
