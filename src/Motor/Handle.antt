-- ===== src/Motor/Handle.antt =====
-- service.py: what a decision of Aegis, bare or with its context, comes to. The third part of a result
-- is what a reporter, where there is one, is given.
pub mod Permitted
pub mod Promoted
use agentic_fintech_ecosyste.Prelude.{
  ℕ, String, Bool, true, false, not, Option, none, some, List, [], ◌∷◌, str_eq, truncate, ◌==◌,
  ◌&&◌, ◌||◌, if◌then◌else◌,
}
use agentic_fintech_ecosyste.Money.{Finite}
use agentic_fintech_ecosyste.Motor.Models.{
  AttestedOrder, ExecutionReport, ExecutionStatus, RejectReason, invalid_order, context_missing,
  strategy_not_promoted,
}
use agentic_fintech_ecosyste.Sharp.Fold.{AuditLookup}
use agentic_fintech_ecosyste.Motor.World.{Parts, Motor, World}
use agentic_fintech_ecosyste.Motor.Execute.{execute}
use agentic_fintech_ecosyste.Motor.Service.{reached_broker}
use agentic_fintech_ecosyste.Motor.Proto.{
  OrderMessage, AttestationMessage, Codec, attested_order_from_proto,
}
use agentic_fintech_ecosyste.Motor.Compliance.{
  AegisDecision, TradeSignal, ExecutionContext, order_text, ContextRefusal, bind_context, Loaded,
  Blocked, ComplianceGates, requires_context, Written, check_strategy, release_check,
}

abbrev or_unknown : String → String
or_unknown s = if str_eq s "" then "unknown" else s

-- `_invalid_report`
unfoldable pub invalid_report : AegisDecision → String → ℕ → RejectReason → ExecutionReport
invalid_report d detail now why =
    let order_id = or_unknown (order_text (λ o. o.order_id) d.order) in
    record {
      order_id = order_id;
      client_order_id = order_id;
      signal_id =
          if str_eq d.signal_id ""
          then or_unknown (order_text (λ o. o.signal_id) d.order)
          else d.signal_id;
      symbol = or_unknown (order_text (λ o. o.symbol) d.order);
      side = none;
      status = ExecutionStatus.rejected;
      requested_quantity = 0;
      reject_reason = some why;
      reject_detail = truncate 300 detail;
      broker_order_id = none;
      venue = none;
      fills = [];
      arrival_price = none;
      received_at_ns = now;
      submitted_at_ns = none;
      updated_at_ns = now;
    }

-- The motor with its codec and gates, and the words for a refused order and a blocked strategy.
pub record Desk : Type 0 where
  pub parts : Parts
  pub codec : Codec
  pub gates : ComplianceGates
  pub order_words : OrderMessage → String
  pub blocked_words : Blocked → String

-- The answers of the world to one request, with the motor's own.
pub record Answers : Type 0 where
  pub now : ℕ
  pub lookup : AuditLookup
  pub load : String → Loaded
  pub written : Written
  pub world : World

-- `ExecuteRequest`
pub record ExecuteRequest : Type 0 where
  pub decision : AegisDecision
  pub context : Option ExecutionContext

-- What `_attested` gives.
pub data Attempt : Type 0 where
  attested : AttestedOrder → Attempt
  refusal : ExecutionReport → Attempt

module _ (desk : Desk) (a : Answers) where
  abbrev invalid : AegisDecision → String → RejectReason → ExecutionReport
  invalid d detail why = invalid_report d detail a.now why

  abbrev incomplete : AegisDecision → Attempt
  incomplete d = refusal (invalid d "APPROVED decision lacks order or attestation" invalid_order)

  converted : AegisDecision → OrderMessage → Option AttestedOrder → Attempt
  converted d o none = refusal (invalid d (desk.order_words o) invalid_order)
  converted d o (some x) = attested x

  -- `_attested`
  unfoldable pub attest : AegisDecision → Attempt
  unfolding converted
  attest d =
      if d.decision == 1
      then elim d.order [
        | none ↦ incomplete d
        | some o ↦ elim d.attestation [
          | none ↦ incomplete d
          | some att ↦
              converted d o
                (attested_order_from_proto desk.codec o att desk.parts.config.allow_short_selling)
        ]
      ]
      else refusal (invalid d "decision is not APPROVED" invalid_order)

  -- `_execute`: the report, the motor, and what the reporter was given.
  unfoldable pub run :
      AttestedOrder → Option Finite → World → Motor → ExecutionReport × Motor × List ExecutionReport
  run x ref w m =
      let (report, m') = execute desk.parts w x ref m in
      (report, m', if reached_broker report then report ∷ [] else [])

  -- `handle_decision`
  unfoldable pub handle_decision :
      AegisDecision → Option Finite → Motor → ExecutionReport × Motor × List ExecutionReport
  handle_decision d ref m =
      if requires_context desk.gates
      then (invalid d "compliance is enforced: use ExecuteWithContext" context_missing, m, [])
      else elim (attest d) [ refusal report ↦ (report, m, []) | attested x ↦ run x ref a.world m ]

  -- After the gate on the strategy: the motor, whose release check stores the manifest.
  unfoldable pub on_gate :
      AegisDecision
      → AttestedOrder
      → Option Blocked
      → Option Finite
      → Motor
      → ExecutionReport × Motor × List ExecutionReport
  on_gate d x (some blocked) ref m =
      (invalid d (desk.blocked_words blocked) strategy_not_promoted, m, [])
  on_gate d x none ref m =
      run x ref (record a.world { release_check = release_check desk.gates a.written }) m

  -- A context that is bound has a signal; without one nothing is sent.
  unfoldable pub with_signal :
      AegisDecision
      → AttestedOrder
      → Option TradeSignal
      → Option Finite
      → Motor
      → ExecutionReport × Motor × List ExecutionReport
  with_signal d x none ref m = (invalid d "request has no context" context_missing, m, [])
  with_signal d x (some signal) ref m =
      on_gate d x (check_strategy desk.gates a.lookup a.load signal) ref m

  -- After `bind_context`.
  unfoldable pub on_bound :
      AegisDecision
      → AttestedOrder
      → ExecutionContext
      → Option ContextRefusal
      → Option Finite
      → Motor
      → ExecutionReport × Motor × List ExecutionReport
  on_bound d x context (some why) ref m = (invalid d why.detail why.reason, m, [])
  on_bound d x context none ref m = with_signal d x context.signal ref m

  -- The context of an attested order.
  unfoldable pub with_context :
      AegisDecision
      → AttestedOrder
      → Option ExecutionContext
      → Option Finite
      → Motor
      → ExecutionReport × Motor × List ExecutionReport
  with_context d x none ref m = (invalid d "request has no context" context_missing, m, [])
  with_context d x (some context) ref m = on_bound d x context (bind_context d context) ref m

  -- What follows `_attested` in `handle_request`.
  unfoldable pub on_attempt :
      Attempt
      → ExecuteRequest
      → Option Finite
      → Motor
      → ExecutionReport × Motor × List ExecutionReport
  on_attempt (refusal report) r ref m = (report, m, [])
  on_attempt (attested x) r ref m = with_context r.decision x r.context ref m

  -- `handle_request`
  unfoldable pub handle_request :
      ExecuteRequest → Option Finite → Motor → ExecutionReport × Motor × List ExecutionReport
  handle_request r ref m = on_attempt (attest r.decision) r ref m
