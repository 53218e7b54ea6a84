-- ===== src/Motor/Verdicts.antt =====
-- motor.py: what the report of `execute` tells of what was done.
use agentic_fintech_ecosyste.Prelude.{◌≡◌, ◌≢◌, ◌⊎◌, inl, inr, Option, some, true, arith}
use agentic_fintech_ecosyste.Money.{Finite}
use agentic_fintech_ecosyste.Motor.Models.{
  AttestedOrder, ExecutionStatus, RejectReason, check_reason_matches_status,
}
use agentic_fintech_ecosyste.Motor.World.{Parts, Motor, World}
use agentic_fintech_ecosyste.Motor.Halt.{is_halted}
use agentic_fintech_ecosyste.Motor.Reports.{rejected}
use agentic_fintech_ecosyste.Motor.Pipeline.{precheck}
use agentic_fintech_ecosyste.Motor.Execute.{after_precheck, run, conclude, execute}
use agentic_fintech_ecosyste.Motor.Settled.{execute-Concluded}

module _ (p : Parts) (w : World) (attested : AttestedOrder) (ref : Option Finite) where
  -- Every report of `execute` passes the report's own validator: a rejection has a reason, and
  -- only a rejection or an unknown outcome has one.
  pub execute_valid :
      (m : Motor)
      → let r = (execute p w attested ref m).0 in
        check_reason_matches_status r.status r.reject_reason ≡ true
  execute_valid m = elim (execute-Concluded p w attested ref m) [
    | inl settled ↦ settled.valid
    | inr (status, reason, halted) ↦ rw (status, reason)
  ]

  -- After a report of an unknown outcome or of an internal error the kill switch is halted.
  pub execute_uncertain_halts :
      (m : Motor)
      → ((execute p w attested ref m).0.status ≡ ExecutionStatus.unknown)
        ⊎ ((execute p w attested ref m).0.reject_reason ≡ some RejectReason.internal_error)
      → (execute p w attested ref m).1.kill.halted ≡ true
  execute_uncertain_halts m why = elim (execute-Concluded p w attested ref m) [
    | inl settled ↦ elim why [
      | inl unknown ↦ settled.unknown_halts unknown
      | inr internal ↦ absurd (settled.not_internal internal)
    ]
    | inr (status, reason, halted) ↦ halted
  ]

  -- A rejection that is neither the broker's nor an internal error did not reach the broker.
  pub execute_rejection_unsent :
      (m : Motor)
      → (execute p w attested ref m).0.status ≡ ExecutionStatus.rejected
      → (execute p w attested ref m).0.reject_reason ≢ some RejectReason.broker_rejected
      → (execute p w attested ref m).0.reject_reason ≢ some RejectReason.internal_error
      → (execute p w attested ref m).1.sent ≡ m.sent
  execute_rejection_unsent m rejection own known_reason =
      elim (execute-Concluded p w attested ref m) [
        | inl settled ↦ elim settled.unsent [
          | inl other ↦ absurd (other rejection)
          | inr (inl brokers) ↦ absurd (own brokers)
          | inr (inr same) ↦ same
        ]
        | inr (status, reason, halted) ↦ absurd (known_reason reason)
      ]

  -- A halted motor rejects every order as halted, and its claims, its reservations and what it has
  -- sent stay as they were.
  pub execute_halted :
      (m : Motor)
      → m.kill.halted ≡ true
      → let (r, m') = execute p w attested ref m in
        (r.reject_reason ≡ some RejectReason.halted)
        × (m'.store ≡ m.store)
        × (m'.reserved ≡ m.reserved)
        × (m'.sent ≡ m.sent)
        × (m'.kill.halted ≡ true)
  unfolding execute run after_precheck precheck is_halted conclude rejected
  execute_halted m h = ground arith
