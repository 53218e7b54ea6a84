-- ===== src/Motor/Cleared.antt =====
-- motor.py: what an order has passed when `_precheck` lets it go on.
use agentic_fintech_ecosyste.Prelude.{
  ℕ, ◌+◌, ◌≤◌, ◌<◌, true, false, Option, none, some, ◌≡◌, ◌⊎◌, arith, str_eq, eq_iff,
}
use agentic_fintech_ecosyste.Money.{Finite}
use agentic_fintech_ecosyste.Motor.Models.{AttestedOrder, direct}
use agentic_fintech_ecosyste.Motor.Attestation.{
  evaluate_attestation, IsAttested, evaluate_attestation-IsAttested,
}
use agentic_fintech_ecosyste.Motor.Halt.{KillSwitch, is_halted}
use agentic_fintech_ecosyste.Motor.Limits.{compute_notional}
use agentic_fintech_ecosyste.Motor.World.{Parts, World}
use agentic_fintech_ecosyste.Motor.Pipeline.{
  trusted_quote_price, timing_reason, go, check_notional, check_order, precheck,
}

-- The signed times allow the order at `now`.
pub record IsTimely (p : Parts) (attested : AttestedOrder) (now : ℕ) : Type 0 where
  pub not_future : attested.attestation.decided_at_ns ≤ now + p.config.max_clock_skew_ns
  pub not_expired : now < attested.attestation.expires_at_ns
  pub not_old : now ≤ attested.attestation.decided_at_ns + p.config.max_order_age_ns

timing_reason-IsTimely :
    (p : Parts) (attested : AttestedOrder) (now : ℕ)
    → timing_reason p.config attested now ≡ none
    → IsTimely p attested now
unfolding timing_reason
timing_reason-IsTimely p attested now h = ground arith

pub record IsCleared (p : Parts) (w : World) (attested : AttestedOrder) (n : ℕ) : Type 0 where
  pub id_signed : attested.order.order_id ≡ attested.order.signal_id
  pub is_attested : IsAttested p.verifier attested
  pub short_permitted :
      (str_eq attested.attestation.attested_side "SELL_SHORT" ≡ false)
      ⊎ (p.config.allow_short_selling ≡ true)
  pub is_timely : IsTimely p attested w.received
  pub algo : attested.order.algo ≡ direct
  pub notional :
      compute_notional attested.order (trusted_quote_price p.config w.quote w.received) ≡ some n
  pub under_cap : n ≤ p.config.max_order_notional

module _ (p : Parts) (w : World) (attested : AttestedOrder) (ref : Option Finite) where
  check_notional-go :
      (n : ℕ)
      → check_notional p w attested ref ≡ go n
      → (compute_notional attested.order (trusted_quote_price p.config w.quote w.received) ≡ some n)
        × (n ≤ p.config.max_order_notional)
  unfolding check_notional
  check_notional-go n h = ground arith

  check_order-go :
      (n : ℕ)
      → check_order p w attested ref ≡ go n
      → (attested.order.order_id ≡ attested.order.signal_id)
        × (evaluate_attestation p.verifier attested ≡ none)
        × ((str_eq attested.attestation.attested_side "SELL_SHORT" ≡ false)
            ⊎ (p.config.allow_short_selling ≡ true))
        × (timing_reason p.config attested w.received ≡ none)
        × (attested.order.algo ≡ direct)
        × (check_notional p w attested ref ≡ go n)
  unfolding check_order
  check_order-go n h = ground (arith, eq_iff attested.order.order_id attested.order.signal_id)

  -- An order that `_precheck` lets go on has been checked in every way, at a moment when the
  -- kill switch let it through.
  pub precheck-IsCleared :
      (k : KillSwitch) (n : ℕ)
      → (precheck p w attested ref k).0 ≡ go n
      → ((is_halted w.first_signal k).0 ≡ false) × IsCleared p w attested n
  unfolding precheck
  precheck-IsCleared k n h =
      let passed : check_order p w attested ref ≡ go n = ground arith in
      let (same, verified, short, timing, algo, counted) = check_order-go n passed in
      let (notional, capped) = check_notional-go n counted in
      (
        ground arith,
        record {
          id_signed = same;
          is_attested = evaluate_attestation-IsAttested p.verifier attested verified;
          short_permitted = short;
          is_timely = timing_reason-IsTimely p attested w.received timing;
          algo = algo;
          notional = notional;
          under_cap = capped;
        },
      )
