-- ===== src/Motor/Service.antt =====
-- service.py: which reports are sent back to Aegis.
use agentic_fintech_ecosyste.Prelude.{
  Bool, true, false, Option, none, some, ◌≡◌, arith, if◌then◌else◌,
}
use agentic_fintech_ecosyste.Money.{Finite}
use agentic_fintech_ecosyste.Motor.Models.{
  AttestedOrder, ExecutionReport, ExecutionStatus, RejectReason,
}
use agentic_fintech_ecosyste.Motor.World.{Parts, Motor, World}
use agentic_fintech_ecosyste.Motor.Execute.{execute}
use agentic_fintech_ecosyste.Motor.Verdicts.{execute_rejection_unsent}

abbrev is_rejected : ExecutionStatus → Bool
is_rejected ExecutionStatus.rejected = true
is_rejected _ = false

abbrev is_brokers : Option RejectReason → Bool
is_brokers none = false
is_brokers (some RejectReason.broker_rejected) = true
is_brokers (some _) = false

abbrev pub is_internal : Option RejectReason → Bool
is_internal none = false
is_internal (some RejectReason.internal_error) = true
is_internal (some _) = false

unfoldable pub reached_broker : ExecutionReport → Bool
reached_broker r = if is_rejected r.status then is_brokers r.reject_reason else true

is_rejected_eq : (s : ExecutionStatus) → is_rejected s ≡ true → s ≡ ExecutionStatus.rejected
is_rejected_eq s h = ground arith

-- A report that is not sent back to Aegis is of an order that this call of `execute` did not send
-- to the broker, unless it reports an internal error.
pub reached_broker_unsent :
    (p : Parts) (w : World) (attested : AttestedOrder) (ref : Option Finite) (m : Motor)
    → reached_broker (execute p w attested ref m).0 ≡ false
    → is_internal (execute p w attested ref m).0.reject_reason ≡ false
    → (execute p w attested ref m).1.sent ≡ m.sent
unfolding reached_broker
reached_broker_unsent p w attested ref m silent known =
    execute_rejection_unsent p w attested ref m (is_rejected_eq _ (ground arith))
      (λ e. ground arith) (λ e. ground arith)
