-- ===== src/Motor/Gate.antt =====
-- motor.py, `_claim_and_reserve`: what holds when it passes, and what it leaves alone.
use agentic_fintech_ecosyste.Prelude.{ℕ, String, true, false, Option, ◌≡◌, arith, contains}
use agentic_fintech_ecosyste.Money.{Finite}
use agentic_fintech_ecosyste.Motor.Models.{AttestedOrder}
use agentic_fintech_ecosyste.Motor.Limits.{fresh, claim, try_reserve}
use agentic_fintech_ecosyste.Motor.Limits.Claims.{claim_fresh, claim_keeps, claim_marks}
use agentic_fintech_ecosyste.Motor.World.{Parts, Motor, World}
use agentic_fintech_ecosyste.Motor.Execute.{
  signal_key, order_key, Gate, pass, reserve, claim_order, claim_and_reserve,
}

-- The claims and the reservation of an order that goes on with notional `n` from the state `m`.
pub record IsClaimed (p : Parts) (attested : AttestedOrder) (n : ℕ) (m : Motor) : Type 0 where
  pub new_signal : contains (signal_key attested.order.signal_id) m.store.seen ≡ false
  pub new_order : contains (order_key attested.order.order_id) m.store.seen ≡ false
  pub granted : (try_reserve p.config.max_session_notional n m.reserved).0 ≡ true

module _ (p : Parts) (w : World) (attested : AttestedOrder) (ref : Option Finite) where
  abbrev pub gate : ℕ → Motor → Gate × Motor
  gate = claim_and_reserve p w attested ref

  pub gate_keeps : (n : ℕ) (m : Motor) → ((gate n m).1.sent ≡ m.sent) × ((gate n m).1.kill ≡ m.kill)
  unfolding claim_and_reserve claim_order reserve
  gate_keeps n m = ground arith

  pub gate_reserved :
      (n : ℕ) (m : Motor)
      → (gate n m).0 ≡ pass
      → (gate n m).1.reserved ≡ (try_reserve p.config.max_session_notional n m.reserved).1
  unfolding claim_and_reserve claim_order reserve
  gate_reserved n m h = ground arith

  gate_granted :
      (n : ℕ) (m : Motor)
      → (gate n m).0 ≡ pass
      → (try_reserve p.config.max_session_notional n m.reserved).0 ≡ true
  unfolding claim_and_reserve claim_order reserve
  gate_granted n m h = ground arith

  gate_claims :
      (n : ℕ) (m : Motor)
      → (gate n m).0 ≡ pass
      → let (first, s) =
          claim
            (w.durable (signal_key attested.order.signal_id))
            (signal_key attested.order.signal_id)
            m.store in
        (first ≡ fresh)
        × ((claim
              (w.durable (order_key attested.order.order_id))
              (order_key attested.order.order_id)
              s).0
            ≡ fresh)
  unfolding claim_and_reserve claim_order reserve
  gate_claims n m h = ground arith

  pub gate_seen :
      (n : ℕ) (m : Motor) (key : String)
      → contains key m.store.seen ≡ true
      → contains key (gate n m).1.store.seen ≡ true
  unfolding claim_and_reserve claim_order reserve
  gate_seen n m key h =
      let sk = signal_key attested.order.signal_id in
      let ok = order_key attested.order.order_id in
      let first = claim_keeps (w.durable sk) sk key m.store h in
      ground
        (arith, first, claim_keeps (w.durable ok) ok key (claim (w.durable sk) sk m.store).1 first)

  pub gate_marks :
      (n : ℕ) (m : Motor)
      → contains (signal_key attested.order.signal_id) (gate n m).1.store.seen ≡ true
  unfolding claim_and_reserve claim_order reserve
  gate_marks n m =
      let sk = signal_key attested.order.signal_id in
      let ok = order_key attested.order.order_id in
      let first = claim_marks (w.durable sk) sk m.store in
      ground
        (arith, first, claim_keeps (w.durable ok) ok sk (claim (w.durable sk) sk m.store).1 first)

  pub gate-IsClaimed : (n : ℕ) (m : Motor) → (gate n m).0 ≡ pass → IsClaimed p attested n m
  gate-IsClaimed n m h =
      let sk = signal_key attested.order.signal_id in
      let ok = order_key attested.order.order_id in
      let claims = gate_claims n m h in
      let later = claim_fresh (w.durable ok) ok (claim (w.durable sk) sk m.store).1 claims.1 in
      record {
        new_signal = claim_fresh (w.durable sk) sk m.store claims.0;
        new_order = ground (arith, later, claim_keeps (w.durable sk) sk ok m.store);
        granted = gate_granted n m h;
      }
