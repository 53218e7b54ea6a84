-- ===== src/Motor/Pipeline.antt =====
-- motor.py, the pipeline: each method of `ExecutionMotor` over the state and the world of a call.
use Prim.Native.String.{◌++◌}
use agentic_fintech_ecosyste.Prelude.{
  ℕ, ◌+◌, ◌-◌, String, Bool, true, false, Option, none, some, ◌∷◌, ltb, leb, ◌||◌, ◌&&◌, not,
  str_eq, if◌then◌else◌,
}
use agentic_fintech_ecosyste.Money.{Decimal, Finite, usable}
use agentic_fintech_ecosyste.Motor.Models.{
  AttestedOrder, ExecAlgo, direct, iceberg, pov, ExecutionReport, ExecutionStatus, RejectReason,
  BrokerOrder,
}
use agentic_fintech_ecosyste.Motor.Config.{MotorConfig}
use agentic_fintech_ecosyste.Motor.Attestation.{evaluate_attestation}
use agentic_fintech_ecosyste.Motor.Halt.{KillSwitch, halt, is_halted}
use agentic_fintech_ecosyste.Motor.Limits.{compute_notional, release}
use agentic_fintech_ecosyste.Motor.World.{
  Parts, Motor, QuoteReply, no_source, missing, broken, quoted, BrokerReply, placed, refused,
  ambiguous, crashed, World, Outcome, returns, raises,
}
use agentic_fintech_ecosyste.Motor.Reports.{
  rejected, unknown_report, fills_of, broker_report, request_of,
}

-- `_trusted_quote_price`: the price of a fresh quote; a quote of a later time is not too old.
unfoldable pub trusted_quote_price : MotorConfig → QuoteReply → ℕ → Option Decimal
trusted_quote_price config (quoted price as_of_ns) now = elim (usable (some price)) [
  | none ↦ none
  | some _ ↦
      if ltb (now + config.max_clock_skew_ns) as_of_ns
        || ltb config.max_quote_age_ns (now - as_of_ns)
      then none
      else some price
]
trusted_quote_price config no_source now = none
trusted_quote_price config missing now = none
trusted_quote_price config broken now = none

-- `_timing_reason`
unfoldable pub timing_reason : MotorConfig → AttestedOrder → ℕ → Option RejectReason
timing_reason config attested now =
    let att = attested.attestation in
    if ltb (now + config.max_clock_skew_ns) att.decided_at_ns
    then some RejectReason.order_from_future
    else if leb att.expires_at_ns now || ltb config.max_order_age_ns (now - att.decided_at_ns)
    then some RejectReason.order_expired
    else none

abbrev algo_value : ExecAlgo → String
algo_value direct = "direct"
algo_value iceberg = "iceberg"
algo_value pov = "pov"

abbrev is_direct : ExecAlgo → Bool
is_direct direct = true
is_direct iceberg = false
is_direct pov = false

-- What `_precheck` returns: a report, or the notional of an order that may go on.
pub data Precheck : Type 0 where
  stop : ExecutionReport → Precheck
  go : ℕ → Precheck

module _ (p : Parts) (w : World) (attested : AttestedOrder) (ref : Option Finite) where
  -- A rejection before a venue is chosen.
  abbrev pub reject : RejectReason → String → ExecutionReport
  reject reason detail = rejected attested.order reason detail w.received ref none w.updated

  -- The notional checks, the last part of `_precheck`.
  unfoldable pub check_notional : Precheck
  check_notional =
      elim (compute_notional attested.order (trusted_quote_price p.config w.quote w.received)) [
        | none ↦ stop (reject RejectReason.notional_undeterminable "")
        | some n ↦
            if ltb p.config.max_order_notional n
            then stop (reject RejectReason.notional_cap_exceeded "")
            else go n
      ]

  -- The checks of the order and its attestation, which follow the halt check.
  unfoldable pub check_order : Precheck
  check_order =
      let order = attested.order in
      if not (str_eq order.order_id order.signal_id)
      then stop (reject RejectReason.order_id_mismatch "")
      else elim (evaluate_attestation p.verifier attested) [
        | some denial ↦ stop (reject denial "")
        | none ↦
            if str_eq attested.attestation.attested_side "SELL_SHORT"
              && not p.config.allow_short_selling
            then stop (reject RejectReason.short_not_permitted "")
            else elim (timing_reason p.config attested w.received) [
              | some timing ↦ stop (reject timing "")
              | none ↦
                  if is_direct order.algo
                  then check_notional
                  else stop (
                      reject RejectReason.algo_unsupported
                        (algo_value order.algo ++ " not implemented"))
            ]
      ]

  unfoldable pub precheck : KillSwitch → Precheck × KillSwitch
  precheck k =
      let (stopped, k') = is_halted w.first_signal k in
      (if stopped then stop (reject RejectReason.halted k'.reason) else check_order, k')

  -- A rejection that names the venue.
  abbrev pub reject_at : String → RejectReason → String → ExecutionReport
  reject_at venue reason detail =
      rejected attested.order reason detail w.received ref (some venue) w.updated

  -- `_unknown`: the outcome is not known, and the motor halts.
  unfoldable pub unknown : String → String → Motor → Outcome × Motor
  unknown venue detail m = (
    returns (unknown_report attested.order venue detail w.received w.submitted ref w.updated),
    record m {
      kill = halt ("submit outcome unknown for order " ++ attested.order.order_id) m.kill;
    },
  )

  -- `_from_broker`, for a status other than `unknown` and `rejected`.
  unfoldable pub accept : String → BrokerOrder → Motor → Outcome × Motor
  accept venue result m = elim (fills_of result w.updated venue) [
    | none ↦ (raises "ValidationError", m)
    | some fills ↦ (
      returns
          (broker_report attested.order venue result fills w.received w.submitted ref w.updated),
      m,
    )
  ]

  unfoldable pub from_broker : String → BrokerOrder → ℕ → Motor → Outcome × Motor
  from_broker venue result notional m = elim result.status [
    | ExecutionStatus.unknown ↦ unknown venue ("unmapped broker status " ++ result.raw_status) m
    | ExecutionStatus.rejected ↦ (
      returns (reject_at venue RejectReason.broker_rejected result.raw_status),
      record m { reserved = release notional m.reserved },
    )
    | _ ↦ accept venue result m
  ]

  -- The `try` around `submit_order`.
  unfoldable pub on_reply : String → ℕ → BrokerReply → Motor → Outcome × Motor
  on_reply venue notional (placed result) m = from_broker venue result notional m
  on_reply venue notional (refused message) m = (
    returns (reject_at venue RejectReason.broker_rejected message),
    record m { reserved = release notional m.reserved },
  )
  on_reply venue notional (ambiguous message) m = unknown venue message m
  on_reply venue notional (crashed name) m = unknown venue name m

  -- `_submit`: the halt check again, then one call of the broker.
  unfoldable pub submit : String → ℕ → Motor → Outcome × Motor
  submit venue notional m =
      let (stopped, k) = is_halted w.last_signal m.kill in
      if stopped
      then (
        returns (reject_at venue RejectReason.halted k.reason),
        record m { kill = k; reserved = release notional m.reserved },
      )
      else on_reply venue notional (w.broker venue (request_of attested.order))
          (record m { kill = k; sent = (venue, request_of attested.order) ∷ m.sent })
