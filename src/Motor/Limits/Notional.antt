-- ===== src/Motor/Limits/Notional.antt =====
-- limits.py: the notional of an order is its worst case.
use agentic_fintech_ecosyste.Prelude.{
  ℕ, zero, suc, ◌≤◌, Option, none, some, ◌≡◌, ◌↔◌, ◌⊎◌, inl, inr, arith, Option-cases,
}
use agentic_fintech_ecosyste.Money.{Decimal, positive, usable, mul}
use agentic_fintech_ecosyste.Motor.Models.{Order}
use agentic_fintech_ecosyste.Motor.Limits.{compute_notional, higher}

-- The highest of two signed prices and a trusted one.
best : ℕ → ℕ → Option ℕ → Option ℕ
best l s = higher (higher (usable (some (positive l))) (usable (some (positive s))))

best_bounds :
    (l s : ℕ) (t : Option ℕ) (p : ℕ)
    → best l s t ≡ some p
    → (l ≤ p) × (s ≤ p) × ((q : ℕ) → t ≡ some q → q ≤ p) × ((l ≡ p) ⊎ (s ≡ p) ⊎ (t ≡ some p))
unfolding best higher usable
best_bounds zero zero none p h = ground arith
best_bounds zero zero (some q) p h = (ground arith, ground arith, λ r e. ground arith, ground arith)
best_bounds zero (suc s) none p h = (ground arith, ground arith, λ r e. ground arith, ground arith)
best_bounds zero (suc s) (some q) p h =
    (ground arith, ground arith, λ r e. ground arith, ground arith)
best_bounds (suc l) zero none p h = (ground arith, ground arith, λ r e. ground arith, ground arith)
best_bounds (suc l) zero (some q) p h =
    (ground arith, ground arith, λ r e. ground arith, ground arith)
best_bounds (suc l) (suc s) none p h =
    (ground arith, ground arith, λ r e. ground arith, ground arith)
best_bounds (suc l) (suc s) (some q) p h =
    (ground arith, ground arith, λ r e. ground arith, ground arith)

-- What the notional of an order is, by its prices: none if no price is usable, and else the
-- quantity times a price that is the limit, the stop or the trusted one, and at least each of them.
pub record IsWorstCase (order : Order) (trusted : Option ℕ) (notional : ℕ) : Type 0 where
  pub price : ℕ
  pub notional_eq : notional ≡ mul order.quantity price
  pub limit_le : order.limit_price ≤ price
  pub stop_le : order.stop_price ≤ price
  pub trusted_le : (q : ℕ) → trusted ≡ some q → q ≤ price
  pub attained : (order.limit_price ≡ price) ⊎ (order.stop_price ≡ price) ⊎ (trusted ≡ some price)

-- The notional is missing exactly when the limit and stop are not set and the trusted price is
-- unusable.
pub compute_notional-none_iff :
    (order : Order) (trusted : Option Decimal)
    → (compute_notional order trusted ≡ none)
      ↔ ((order.limit_price ≡ 0) × (order.stop_price ≡ 0) × (usable trusted ≡ none))
unfolding compute_notional usable
compute_notional-none_iff order trusted =
    (λ h. (ground arith, ground arith, ground arith), λ h. ground arith)

-- A notional is the quantity times the highest of the limit, the stop and the trusted price.
pub compute_notional-IsWorstCase :
    (order : Order) (trusted : Option Decimal) (n : ℕ)
    → compute_notional order trusted ≡ some n
    → IsWorstCase order (usable trusted) n
unfolding compute_notional best
compute_notional-IsWorstCase order trusted n h =
    elim (Option-cases (best order.limit_price order.stop_price (usable trusted))) [
      | inl missing ↦ absurd (cc (rw (missing, compute_notional) at h))
      | inr (p, e) ↦
          let bounds = best_bounds order.limit_price order.stop_price (usable trusted) p e in
          record {
            price = p;
            notional_eq = ground arith;
            limit_le = bounds.0;
            stop_le = bounds.1;
            trusted_le = bounds.2;
            attained = bounds.3;
          }
    ]
