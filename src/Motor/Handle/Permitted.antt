-- ===== src/Motor/Handle/Permitted.antt =====
-- service.py: what a request has passed when the motor sends its order.
use agentic_fintech_ecosyste.Prelude.{
  ℕ, String, true, Option, none, some, ◌∷◌, ◌≡◌, ◌⊎◌, inl, inr, refl, sym, ap, ◌∙◌, arith, eq_iff,
  ◌==◌, Option-cases, Bool-cases,
}
use agentic_fintech_ecosyste.Money.{Finite}
use agentic_fintech_ecosyste.Motor.Models.{AttestedOrder}
use agentic_fintech_ecosyste.Motor.World.{Motor, World}
use agentic_fintech_ecosyste.Motor.Send.{call, Sends, execute-Sends}
use agentic_fintech_ecosyste.Motor.Proto.{
  OrderMessage, AttestationMessage, attested_order_from_proto,
}
use agentic_fintech_ecosyste.Motor.Compliance.{
  AegisDecision, TradeSignal, ExecutionContext, ContextRefusal, Blocked, order_text, bind_context,
  bind_signal, check_strategy, release_check,
}
use agentic_fintech_ecosyste.Motor.Handle.{
  Desk, Answers, ExecuteRequest, Attempt, attested, refusal, attest, run, on_gate, with_signal,
  on_bound, with_context, on_attempt, handle_request,
}

-- The decision is a complete approval, and the adapter makes this order of it.
pub record IsApproved (desk : Desk) (d : AegisDecision) (x : AttestedOrder) : Type 0 where
  pub approved : d.decision == 1 ≡ true
  pub message : OrderMessage
  pub attestation : AttestationMessage
  pub has_order : d.order ≡ some message
  pub has_attestation : d.attestation ≡ some attestation
  pub converts :
      attested_order_from_proto desk.codec message attestation desk.parts.config.allow_short_selling
      ≡ some x

-- The request has a context of the same signal and symbol, whose strategy may trade.
pub record IsBound (desk : Desk) (a : Answers) (r : ExecuteRequest) : Type 0 where
  pub context : ExecutionContext
  pub signal : TradeSignal
  pub has_context : r.context ≡ some context
  pub has_signal : context.signal ≡ some signal
  pub snapshot : context.snapshot ≡ some signal.symbol
  pub same_signal : signal.signal_id ≡ order_text (λ o. o.signal_id) r.decision.order
  pub same_symbol : signal.symbol ≡ order_text (λ o. o.symbol) r.decision.order
  pub may_trade : check_strategy desk.gates a.lookup a.load signal ≡ none

-- The motor's world in a request: its release check stores the manifest.
abbrev pub world_of : Desk → Answers → World
world_of desk a = record a.world { release_check = release_check desk.gates a.written }

-- What `execute` appends to the broker calls, and under which conditions.
abbrev pub Sent : Desk → World → AttestedOrder → Option Finite → Motor → Motor → Type 0
Sent desk w x ref m m' =
    (venue : String) × (n : ℕ) × (m'.sent ≡ call desk.parts w x ref venue ∷ m.sent)
    × Sends desk.parts w x ref m venue n

bind_signal-none :
    (d : AegisDecision) (signal : TradeSignal) (symbol : String)
    → bind_signal d signal symbol ≡ none
    → (signal.signal_id ≡ order_text (λ o. o.signal_id) d.order)
      × (signal.symbol ≡ order_text (λ o. o.symbol) d.order)
      × (order_text (λ o. o.symbol) d.order ≡ symbol)
unfolding bind_signal
bind_signal-none d signal symbol h =
    let order_signal = order_text (λ o. o.signal_id) d.order in
    let order_symbol = order_text (λ o. o.symbol) d.order in
    (
      (eq_iff signal.signal_id d.signal_id).0 (ground arith)
          ∙ (eq_iff d.signal_id order_signal).0 (ground arith),
      (eq_iff signal.symbol order_symbol).0 (ground arith),
      (eq_iff order_symbol symbol).0 (ground arith),
    )

attest-IsApproved :
    (desk : Desk) (a : Answers) (d : AegisDecision) (x : AttestedOrder)
    → attest desk a d ≡ attested x
    → IsApproved desk d x
unfolding attest
attest-IsApproved desk a d x h = elim (Bool-cases (d.decision == 1)) [
  | inr other ↦ absurd (ground arith)
  | inl approved ↦ elim (Option-cases d.order) [
    | inl no_order ↦ absurd (ground arith)
    | inr (o, has_order) ↦ elim (Option-cases d.attestation) [
      | inl unattested ↦ absurd (ground arith)
      | inr (att, has_attestation) ↦ record {
        approved = approved;
        message = o;
        attestation = att;
        has_order = has_order;
        has_attestation = has_attestation;
        converts = ground arith;
      }
    ]
  ]
]

module _ (desk : Desk) (a : Answers) where
  run-Sent :
      (x : AttestedOrder) (ref : Option Finite) (w : World) (m : Motor)
      → ((run desk a x ref w m).1.sent ≡ m.sent) ⊎ Sent desk w x ref m (run desk a x ref w m).1
  unfolding run
  run-Sent x ref w m = execute-Sends desk.parts w x ref m

  -- Nothing is sent, or what `Sent` says, under a condition.
  abbrev SentWhen : Type 0 → AttestedOrder → Option Finite → Motor → Motor → Type 0
  SentWhen P x ref m m' = (m'.sent ≡ m.sent) ⊎ (P × Sent desk (world_of desk a) x ref m m')

  on_gate-Sent :
      (d : AegisDecision) (x : AttestedOrder) (found : Option Blocked) (ref : Option Finite)
      (m : Motor)
      → SentWhen (found ≡ none) x ref m (on_gate desk a d x found ref m).1
  unfolding on_gate
  on_gate-Sent d x (some blocked) ref m = inl refl
  on_gate-Sent d x none ref m = elim (run-Sent x ref (world_of desk a) m) [
    | inl same ↦ inl same
    | inr sent ↦ inr (refl, sent)
  ]

  with_signal-Sent :
      (d : AegisDecision) (x : AttestedOrder) (signal : Option TradeSignal) (ref : Option Finite)
      (m : Motor)
      → SentWhen
          ((s : TradeSignal) × (signal ≡ some s)
            × (check_strategy desk.gates a.lookup a.load s ≡ none))
          x
          ref
          m
          (with_signal desk a d x signal ref m).1
  unfolding with_signal
  with_signal-Sent d x none ref m = inl refl
  with_signal-Sent d x (some s) ref m = elim (on_gate-Sent d x _ ref m) [
    | inl same ↦ inl same
    | inr (clear, sent) ↦ inr ((s, refl, clear), sent)
  ]

  IsBound-context :
      (r : ExecuteRequest) (c : ExecutionContext) (s : TradeSignal)
      → r.context ≡ some c
      → c.signal ≡ some s
      → bind_context r.decision c ≡ none
      → check_strategy desk.gates a.lookup a.load s ≡ none
      → IsBound desk a r
  unfolding bind_context
  IsBound-context r c s has_context has_signal bound clear = elim (Option-cases c.snapshot) [
    | inl absent ↦ absurd (ground arith)
    | inr (symbol, there) ↦
        let (signal, order_symbol, same_symbol) =
          bind_signal-none r.decision s symbol (ground arith) in
        record {
          context = c;
          signal = s;
          has_context = has_context;
          has_signal = has_signal;
          snapshot = there ∙ ap some (sym (order_symbol ∙ same_symbol));
          same_signal = signal;
          same_symbol = order_symbol;
          may_trade = clear;
        }
  ]

  on_bound-Sent :
      (r : ExecuteRequest) (x : AttestedOrder) (c : ExecutionContext)
      (found : Option ContextRefusal) (ref : Option Finite) (m : Motor)
      → r.context ≡ some c
      → bind_context r.decision c ≡ found
      → SentWhen (IsBound desk a r) x ref m (on_bound desk a r.decision x c found ref m).1
  unfolding on_bound
  on_bound-Sent r x c (some why) ref m has_context bound = inl refl
  on_bound-Sent r x c none ref m has_context bound =
      elim (with_signal-Sent r.decision x c.signal ref m) [
        | inl same ↦ inl same
        | inr ((s, has_signal, clear), sent) ↦
            inr (IsBound-context r c s has_context has_signal bound clear, sent)
      ]

  with_context-Sent :
      (r : ExecuteRequest) (x : AttestedOrder) (context : Option ExecutionContext)
      (ref : Option Finite) (m : Motor)
      → r.context ≡ context
      → SentWhen (IsBound desk a r) x ref m (with_context desk a r.decision x context ref m).1
  unfolding with_context
  with_context-Sent r x none ref m same = inl refl
  with_context-Sent r x (some c) ref m same = on_bound-Sent r x c _ ref m same refl

  on_attempt-Sent :
      (attempt : Attempt) (r : ExecuteRequest) (ref : Option Finite) (m : Motor)
      → attest desk a r.decision ≡ attempt
      → ((on_attempt desk a attempt r ref m).1.sent ≡ m.sent)
        ⊎ ((x : AttestedOrder) × IsApproved desk r.decision x
            × IsBound desk a r
            × Sent desk (world_of desk a) x ref m (on_attempt desk a attempt r ref m).1)
  unfolding on_attempt
  on_attempt-Sent (refusal report) r ref m same = inl refl
  on_attempt-Sent (attested x) r ref m same = elim (with_context-Sent r x r.context ref m refl) [
    | inl kept ↦ inl kept
    | inr (bound, sent) ↦ inr (x, attest-IsApproved desk a r.decision x same, bound, sent)
  ]

  -- A request sends nothing to the broker, or one call, and then its decision is a complete
  -- approval, the order is the one that the adapter made of it, the context has the same signal and
  -- symbol, the gate let its strategy trade, and `execute` sent it under its own conditions, the
  -- manifest check included.
  pub handle_request-Sent :
      (r : ExecuteRequest) (ref : Option Finite) (m : Motor)
      → ((handle_request desk a r ref m).1.sent ≡ m.sent)
        ⊎ ((x : AttestedOrder) × IsApproved desk r.decision x
            × IsBound desk a r
            × Sent desk (world_of desk a) x ref m (handle_request desk a r ref m).1)
  unfolding handle_request
  handle_request-Sent r ref m = on_attempt-Sent (attest desk a r.decision) r ref m refl
