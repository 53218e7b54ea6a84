-- ===== src/Motor/Answers.antt =====
-- motor.py: what `execute` makes of the broker's reply, for an order that every gate lets through.
use agentic_fintech_ecosyste.Prelude.{
  ℕ, zero, suc, ℤ, String, List, [], Option, none, some, ◌∷◌, ◌≡◌, refl, arith, true, ap, sym, ◌∙◌,
}
use mathlib.Core.Path.{subst}
use agentic_fintech_ecosyste.Money.{Decimal, positive, negative, infinite, nan, Finite, usable}
use agentic_fintech_ecosyste.Motor.Models.{
  Fill, AttestedOrder, ExecutionReport, ExecutionStatus, RejectReason, BrokerOrder,
}
use agentic_fintech_ecosyste.Motor.Halt.{halt}
use agentic_fintech_ecosyste.Motor.Limits.{release}
use agentic_fintech_ecosyste.Motor.World.{
  Parts, Motor, World, BrokerReply, placed, refused, ambiguous, crashed, returns, raises,
}
use agentic_fintech_ecosyste.Motor.Reports.{
  request_of, rejected, unknown_report, broker_report, fills_of, or_else,
}
use agentic_fintech_ecosyste.Motor.Pipeline.{on_reply, from_broker, unknown, accept}
use agentic_fintech_ecosyste.Motor.Send.{call}
use agentic_fintech_ecosyste.Motor.Execute.{conclude, execute}
use agentic_fintech_ecosyste.Motor.Ready.{IsReady, at_call, run_ready}

-- A definite reject: the reservation of `n` is given back, and the switch is left alone.
abbrev GivenBack : Motor → ℕ → ExecutionReport × Motor → Type 0
GivenBack c n (r, m') =
    (r.status ≡ ExecutionStatus.rejected)
    × (r.reject_reason ≡ some RejectReason.broker_rejected)
    × (m'.reserved ≡ release n c.reserved)
    × (m'.kill ≡ c.kill)

-- An outcome that is not known: the reservation is kept, and the switch is halted.
abbrev Uncertain : Motor → ExecutionReport × Motor → Type 0
Uncertain c (r, m') =
    (r.status ≡ ExecutionStatus.unknown) × (m'.reserved ≡ c.reserved) × (m'.kill.halted ≡ true)

-- A result of the broker: reported as it is if its fills are valid, and else an internal error.
abbrev Reported : Motor → ExecutionStatus → Option (List Fill) → ExecutionReport × Motor → Type 0
Reported c status (some fills) (r, m') =
    (r.status ≡ status)
    × (r.reject_reason ≡ none)
    × (r.fills ≡ fills)
    × (m'.reserved ≡ c.reserved)
    × (m'.kill ≡ c.kill)
Reported c status none (r, m') =
    (r.status ≡ ExecutionStatus.rejected)
    × (r.reject_reason ≡ some RejectReason.internal_error)
    × (m'.reserved ≡ c.reserved)
    × (m'.kill.halted ≡ true)

-- The fills of a result: one, of the filled quantity at the average price, when both are given and
-- above zero; none without them; and a price that is not above zero is not valid.
abbrev pub IsFills : Decimal → Option Decimal → ℤ → String → Option (List Fill) → Type 0
IsFills (positive (suc q)) (some (positive (suc p))) at venue fills =
    fills ≡ some (record { quantity = suc q; price = suc p; timestamp_ns = at; venue = venue } ∷ [])
IsFills (positive (suc q)) (some price) at venue fills = fills ≡ none
IsFills quantity price at venue fills = fills ≡ some []

fills_of-IsFills :
    (b : BrokerOrder) (quantity : Decimal) (price : Option Decimal) (now : ℕ) (venue : String)
    → b.filled_quantity ≡ quantity
    → b.filled_avg_price ≡ price
    → IsFills quantity price (or_else b.filled_at_ns now) venue (fills_of b now venue)
unfolding fills_of usable
fills_of-IsFills b (positive (suc q)) (some (positive (suc p))) now venue e f = rw e (rw f refl)
fills_of-IsFills b (positive (suc q)) (some (positive zero)) now venue e f = rw e (rw f refl)
fills_of-IsFills b (positive (suc q)) (some (negative n)) now venue e f = rw e (rw f refl)
fills_of-IsFills b (positive (suc q)) (some (infinite s)) now venue e f = rw e (rw f refl)
fills_of-IsFills b (positive (suc q)) (some nan) now venue e f = rw e (rw f refl)
fills_of-IsFills b (positive (suc q)) none now venue e f = rw e (rw f refl)
fills_of-IsFills b (positive zero) price now venue e f = rw e refl
fills_of-IsFills b (negative n) price now venue e f = rw e refl
fills_of-IsFills b (infinite s) price now venue e f = rw e refl
fills_of-IsFills b nan price now venue e f = rw e refl

-- What follows a result, by its status and its fills.
abbrev Placed : Motor → ℕ → ExecutionStatus → Option (List Fill) → ExecutionReport × Motor → Type 0
Placed c n ExecutionStatus.rejected fills x = GivenBack c n x
Placed c n ExecutionStatus.unknown fills x = Uncertain c x
Placed c n ExecutionStatus.accepted fills x = Reported c ExecutionStatus.accepted fills x
Placed c n ExecutionStatus.partially_filled fills x =
    Reported c ExecutionStatus.partially_filled fills x
Placed c n ExecutionStatus.filled fills x = Reported c ExecutionStatus.filled fills x
Placed c n ExecutionStatus.cancelled fills x = Reported c ExecutionStatus.cancelled fills x
Placed c n ExecutionStatus.expired fills x = Reported c ExecutionStatus.expired fills x

-- What follows a reply to a call that was made in the state `c`, for the notional `n`.
abbrev pub Answered : Motor → ℕ → World → String → BrokerReply → ExecutionReport × Motor → Type 0
Answered c n w venue (refused message) x = GivenBack c n x
Answered c n w venue (ambiguous message) x = Uncertain c x
Answered c n w venue (crashed name) x = Uncertain c x
Answered c n w venue (placed b) x =
    (fills : Option (List Fill)) × IsFills b.filled_quantity b.filled_avg_price
      (or_else b.filled_at_ns w.updated) venue fills
    × Placed c n b.status fills x

module _ (p : Parts) (w : World) (attested : AttestedOrder) (ref : Option Finite) where
  accept_fills :
      (c : Motor) (venue : String) (b : BrokerOrder) (fills : List Fill)
      → some fills ≡ fills_of b w.updated venue
      → accept p w attested ref venue b c ≡ (
        returns (broker_report attested.order venue b fills w.received w.submitted ref w.updated),
        c,
      )
  unfolding accept
  accept_fills c venue b fills e = ground arith

  accept_invalid :
      (c : Motor) (venue : String) (b : BrokerOrder)
      → none ≡ fills_of b w.updated venue
      → accept p w attested ref venue b c ≡ (raises "ValidationError", c)
  unfolding accept
  accept_invalid c venue b e = ground arith

  accept-Reported :
      (c : Motor) (venue : String) (b : BrokerOrder) (fills : Option (List Fill))
      → fills ≡ fills_of b w.updated venue
      → Reported c b.status fills (conclude p w attested ref (accept p w attested ref venue b c))
  unfolding rejected broker_report halt conclude
  accept-Reported c venue b none e =
      subst (λ x. Reported c b.status none (conclude p w attested ref x))
        (sym (accept_invalid c venue b e)) (refl, refl, refl, refl)
  accept-Reported c venue b (some fills) e =
      subst (λ x. Reported c b.status (some fills) (conclude p w attested ref x))
        (sym (accept_fills c venue b fills e)) (refl, refl, refl, refl, refl)

  module _ (c : Motor) (n : ℕ) (venue : String) (b : BrokerOrder) where
    -- The branch of `_from_broker` for the other statuses.
    accepts :
        (s : ExecutionStatus)
        → b.status ≡ s
        → from_broker p w attested ref venue b n c ≡ accept p w attested ref venue b c
        → Reported c s
            (fills_of b w.updated venue)
            (conclude p w attested ref (from_broker p w attested ref venue b n c))
    accepts s e same =
        subst (λ x. Reported c s (fills_of b w.updated venue) (conclude p w attested ref x))
          (sym same)
          (subst
            (λ x.
              Reported c x (fills_of b w.updated venue)
                (conclude p w attested ref (accept p w attested ref venue b c)))
            e (accept-Reported c venue b (fills_of b w.updated venue) refl))

    from_broker-Placed :
        (s : ExecutionStatus)
        → b.status ≡ s
        → Placed c n s
            (fills_of b w.updated venue)
            (conclude p w attested ref (from_broker p w attested ref venue b n c))
    unfolding from_broker unknown rejected unknown_report halt conclude
    from_broker-Placed ExecutionStatus.rejected e = ground arith
    from_broker-Placed ExecutionStatus.unknown e = ground arith
    from_broker-Placed ExecutionStatus.accepted e =
        accepts ExecutionStatus.accepted e (ground arith)
    from_broker-Placed ExecutionStatus.partially_filled e =
        accepts ExecutionStatus.partially_filled e (ground arith)
    from_broker-Placed ExecutionStatus.filled e = accepts ExecutionStatus.filled e (ground arith)
    from_broker-Placed ExecutionStatus.cancelled e =
        accepts ExecutionStatus.cancelled e (ground arith)
    from_broker-Placed ExecutionStatus.expired e = accepts ExecutionStatus.expired e (ground arith)

  conclude-Answered :
      (c : Motor) (n : ℕ) (venue : String) (reply : BrokerReply)
      → Answered c n w venue reply
          (conclude p w attested ref (on_reply p w attested ref venue n reply c))
  unfolding on_reply unknown rejected unknown_report halt conclude
  conclude-Answered c n venue (refused message) = (refl, refl, refl, refl)
  conclude-Answered c n venue (ambiguous message) = (refl, refl, refl)
  conclude-Answered c n venue (crashed name) = (refl, refl, refl)
  conclude-Answered c n venue (placed b) = (
    fills_of b w.updated venue,
    fills_of-IsFills b b.filled_quantity b.filled_avg_price w.updated venue refl refl,
    from_broker-Placed c n venue b b.status refl,
  )

  conclude_reply_sent :
      (c : Motor) (n : ℕ) (venue : String) (reply : BrokerReply)
      → (conclude p w attested ref (on_reply p w attested ref venue n reply c)).1.sent ≡ c.sent
  unfolding on_reply from_broker unknown accept conclude
  conclude_reply_sent c n venue reply = ground arith

  -- An order for which every gate stands open, with a reference price that is finite if it is given,
  -- reaches the broker: it is called once, at the venue that the router chose. A definite reject
  -- gives the reservation back; an ambiguous outcome keeps it and halts the motor; any other status is
  -- reported and keeps it, with one fill of the filled quantity at the average price when both are
  -- given and the quantity is above zero; and if that price is not above zero, the report is a
  -- rejection for an internal error and the motor halts.
  pub execute_answers :
      (m : Motor) (venue : String) (n : ℕ)
      → IsReady p w attested ref m venue n
      → ((execute p w attested ref m).1.sent ≡ call p w attested ref venue ∷ m.sent)
        × Answered
            (at_call p w attested ref m venue n)
            n
            w
            venue
            (w.broker venue (request_of attested.order))
            (execute p w attested ref m)
  unfolding execute
  execute_answers m venue n r =
      let reply = w.broker venue (request_of attested.order) in
      let c = at_call p w attested ref m venue n in
      let same = sym (run_ready p w attested ref m venue n r) in
      (
        ap (λ x. (conclude p w attested ref x).1.sent) (sym same)
            ∙ conclude_reply_sent c n venue reply,
        subst (λ x. Answered c n w venue reply (conclude p w attested ref x)) same
            (conclude-Answered c n venue reply),
      )
