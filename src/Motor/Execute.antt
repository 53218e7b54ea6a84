-- ===== src/Motor/Execute.antt =====
-- motor.py, from the claims to `execute`: the steps of `_run` that change the motor.
use Prim.Native.String.{◌++◌}
use agentic_fintech_ecosyste.Prelude.{
  ℕ, String, Bool, true, false, Option, none, some, List, ◌&&◌, if◌then◌else◌,
}
use agentic_fintech_ecosyste.Money.{Finite}
use agentic_fintech_ecosyste.Motor.Models.{AttestedOrder, ExecutionReport, RejectReason}
use agentic_fintech_ecosyste.Motor.Halt.{halt}
use agentic_fintech_ecosyste.Motor.Limits.{
  Claim, fresh, duplicate, not_persisted, claim, try_reserve, release,
}
use agentic_fintech_ecosyste.Motor.Router.{VenueObservation, route}
use agentic_fintech_ecosyste.Motor.World.{
  Parts, Motor, StatsReply, known, fails, ReleaseReply, not_given, passes, refuses, breaks, World,
  Outcome, returns, raises,
}
use agentic_fintech_ecosyste.Motor.Reports.{rejected}
use agentic_fintech_ecosyste.Motor.Pipeline.{
  Precheck, stop, go, precheck, submit, reject, reject_at,
}

-- The keys of the two claims of an order, of its signal id and of its order id.
unfoldable pub signal_key : String → String
signal_key id = "signal:" ++ id

unfoldable pub order_key : String → String
order_key id = "order:" ++ id

abbrev pub is_fresh : Claim → Bool
is_fresh fresh = true
is_fresh duplicate = false
is_fresh not_persisted = false

-- How `_claim_and_reserve` ends: it passes, returns a report, or raises.
pub data Gate : Type 0 where
  pass : Gate
  refuse : ExecutionReport → Gate
  break : String → Gate

module _ (p : Parts) (w : World) (attested : AttestedOrder) (ref : Option Finite) where
  -- The reservation, after both claims.
  unfoldable pub reserve : ℕ → Motor → Gate × Motor
  reserve notional m =
      let (granted, reserved) = try_reserve p.config.max_session_notional notional m.reserved in
      if granted
      then (pass, record m { reserved = reserved })
      else (refuse (reject p w attested ref RejectReason.session_notional_cap_exceeded ""), m)

  -- The second claim and what follows it; `signal` is the reply to the first.
  unfoldable pub claim_order : ℕ → Claim → Motor → Gate × Motor
  claim_order notional signal m =
      let (reply, store) =
        claim (w.durable (order_key attested.order.order_id)) (order_key attested.order.order_id)
          m.store in
      elim reply [
        | not_persisted ↦ (break "IdempotencyStoreError", record m { store = store })
        | other ↦
            if is_fresh signal && is_fresh other
            then reserve notional (record m { store = store })
            else (
              refuse (reject p w attested ref RejectReason.duplicate_order ""),
              record m { store = store },
            )
      ]

  -- `_claim_and_reserve`
  unfoldable pub claim_and_reserve : ℕ → Motor → Gate × Motor
  claim_and_reserve notional m =
      let (reply, store) =
        claim (w.durable (signal_key attested.order.signal_id))
          (signal_key attested.order.signal_id) m.store in
      elim reply [
        | not_persisted ↦ (break "IdempotencyStoreError", record m { store = store })
        | other ↦ claim_order notional other (record m { store = store })
      ]

  -- The release check, by its reply, and the submission.
  unfoldable pub release_and_submit : ReleaseReply → ℕ → String → Motor → Outcome × Motor
  release_and_submit not_given notional venue m = submit p w attested ref venue notional m
  release_and_submit passes notional venue m = submit p w attested ref venue notional m
  release_and_submit (refuses detail) notional venue m = (
    returns (reject_at p w attested ref venue RejectReason.manifest_failed detail),
    record m { reserved = release notional m.reserved },
  )
  release_and_submit (breaks name) notional venue m = (raises name, m)

  -- What follows `_claim_and_reserve`, by how it ends.
  unfoldable pub after_gate : Gate → ℕ → String → Motor → Outcome × Motor
  after_gate pass notional venue m = release_and_submit w.release_check notional venue m
  after_gate (refuse report) notional venue m = (returns report, m)
  after_gate (break name) notional venue m = (raises name, m)

  -- The router's choice over these statistics.
  abbrev pub chosen_venue : (String → List VenueObservation) → Option String
  chosen_venue stats = (route p.scorer p.router attested.order p.venues stats w.received).venue

  -- What follows the router, by the venue that it chose.
  unfoldable pub at_venue : Option String → ℕ → Motor → Outcome × Motor
  at_venue none notional m =
      (returns (reject p w attested ref RejectReason.no_eligible_venue ""), m)
  at_venue (some venue) notional m =
      let (gate, m') = claim_and_reserve notional m in after_gate gate notional venue m'

  -- The part of `_run` that follows `_precheck`, by the reply of the venue statistics.
  unfoldable pub route_and_send : StatsReply → ℕ → Motor → Outcome × Motor
  route_and_send (fails name) notional m = (raises name, m)
  route_and_send (known stats) notional m = at_venue (chosen_venue stats) notional m

  unfoldable pub after_precheck : Precheck → Motor → Outcome × Motor
  after_precheck (stop report) m = (returns report, m)
  after_precheck (go notional) m = route_and_send w.stats notional m

  unfoldable pub run : Motor → Outcome × Motor
  run m =
      let (pre, k) = precheck p w attested ref m.kill in after_precheck pre (record m { kill = k })

  -- The last-resort boundary of `execute`: halt, and reject.
  unfoldable pub conclude : Outcome × Motor → ExecutionReport × Motor
  conclude (returns report, m) = (report, m)
  conclude (raises name, m) = (
    rejected attested.order RejectReason.internal_error name w.received ref none w.failed,
    record m { kill = halt ("unexpected error: " ++ name) m.kill },
  )

  unfoldable pub execute : Motor → ExecutionReport × Motor
  execute m = conclude (run m)
