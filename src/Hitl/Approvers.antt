-- ===== src/Hitl/Approvers.antt =====
-- holds.py of hitl_backend: how many approvers a hold needs, against the thresholds.
use agentic_fintech_ecosyste.Prelude.{
  ℕ, zero, suc, ◌*◌, ◌^◌, ◌≤◌, ◌<◌, Option, none, some, ◌≡◌, ◌⊎◌, ◌↔◌, arith,
}
use agentic_fintech_ecosyste.Money.{mul, precision_limit}
use agentic_fintech_ecosyste.Money.Exact.{round-eq}
use agentic_fintech_ecosyste.Hitl.Python.{pos}
use agentic_fintech_ecosyste.Hitl.Holds.{Threshold, reaches, by_notional, required_approvals}

-- The quantity (in nanos) reaches its threshold, or the order has a limit price, and the notional,
-- the product in 10^-18, reaches a threshold that is set.
abbrev pub NeedsTwo : ℕ → ℕ → Threshold → Option Threshold → Type 0
NeedsTwo q p t none = t.coefficient * 10 ^ 9 ≤ q * 10 ^ t.places
NeedsTwo q p t (some limit) =
    (t.coefficient * 10 ^ 9 ≤ q * 10 ^ t.places)
    ⊎ ((0 < p) × (limit.coefficient * 10 ^ 18 ≤ q * p * 10 ^ limit.places))

mul-eq : (a b : ℕ) → a * b < precision_limit → mul a b ≡ a * b
unfolding mul
mul-eq a b h = round-eq (a * b) h

-- For a product of at most 28 digits, a hold needs two approvers exactly when its quantity reaches
-- the quantity threshold, or it has a limit price and the exact notional reaches the notional
-- threshold; it needs one otherwise.
pub required_approvals_iff :
    (q p : ℕ) (t : Threshold) (limit : Option Threshold)
    → q * p < precision_limit
    → ((required_approvals (pos q) (pos p) t limit ≡ 2) ↔ NeedsTwo q p t limit)
unfolding required_approvals by_notional reaches
required_approvals_iff q p t none h = (λ e. ground arith, λ n. ground arith)
required_approvals_iff q zero t (some limit) h = (λ e. ground arith, λ n. ground arith)
required_approvals_iff q (suc p) t (some limit) h =
    rw (mul-eq q (suc p) h) (λ e. ground arith, λ n. ground arith)
