-- ===== src/Motor/Handle/Promoted.antt =====
-- service.py, compliance.py and afe_sharp together: the strategies of the orders that a production
-- motor sends.
use Prim.Native.String.{◌++◌}
use mathlib.Core.Path.{subst}
use mathlib.Core.Bool.{false≢true}
use agentic_fintech_ecosyste.Prelude.{
  String, Bool, true, false, Option, none, some, List, [], ◌∷◌, map, ◌≡◌, ◌⊎◌, inl, inr, refl, sym,
  ap, ◌∙◌, arith, contains, Option-cases, Bool-cases, Has, str_eq, eq_iff, if◌then◌else◌,
}
use agentic_fintech_ecosyste.Money.{Finite}
use agentic_fintech_ecosyste.Sharp.Json.{Library}
use agentic_fintech_ecosyste.Sharp.Models.{
  Stage, stage_value, draft, compliance, legal, backtest, risk, canary, promoted, rejected, Event,
  Approval, ProposalRecord, Result, ok, err,
}
use agentic_fintech_ecosyste.Sharp.Fold.{AuditLookup, fold}
use agentic_fintech_ecosyste.Sharp.Promotion.{fold_promoted}
use agentic_fintech_ecosyste.Motor.Models.{AttestedOrder, ExecutionStatus, context_missing}
use agentic_fintech_ecosyste.Motor.World.{Parts, Motor, World, refuses, not_given}
use agentic_fintech_ecosyste.Motor.Send.{IsReleased}
use agentic_fintech_ecosyste.Motor.Compliance.{
  TradeSignal, Loaded, loaded, load_fails, StrategyGate, proposal_of, check_state, check_history,
  check, ComplianceGates, is_some, requires_context, Written, stored, write_fails, check_strategy,
  release_check, AegisDecision,
}
use agentic_fintech_ecosyste.Motor.Compliance.Config.{
  ComplianceConfig, from_env, from_env_production, allowed_states, build_compliance,
}
use agentic_fintech_ecosyste.Motor.Handle.{
  Desk, Answers, ExecuteRequest, handle_decision, handle_request, invalid_report,
}
use agentic_fintech_ecosyste.Motor.Handle.Permitted.{
  IsApproved, IsBound, world_of, handle_request-Sent,
}

-- The gate maps the strategy to a proposal whose history is accepted as promoted, by six approvals.
pub record IsPromoted (g : StrategyGate) (a : Answers) (strategy : String) : Type 0 where
  pub proposal : String
  pub mapped : Has (strategy, proposal) g.strategies
  pub history : List Event
  pub loads : a.load proposal ≡ loaded history
  pub folded : ProposalRecord
  pub accepted : fold g.library history a.lookup ≡ ok folded
  pub state : folded.state ≡ promoted
  pub approvals :
      map (λ (p : Approval). p.stage) folded.approvals
      ≡ compliance ∷ legal ∷ backtest ∷ risk ∷ canary ∷ promoted ∷ []

proposal_of-Has :
    (strategy proposal : String) (strategies : List (String × String))
    → proposal_of strategy strategies ≡ some proposal
    → Has (strategy, proposal) strategies
unfolding proposal_of
proposal_of-Has strategy proposal [] h = absurd (ground arith)
proposal_of-Has strategy proposal ((key, value) ∷ rest) h =
    elim (Bool-cases (str_eq strategy key)) [
      | inl same ↦
          let found : value ≡ proposal = ground arith in
          inl (
            ap (λ (a : String). (a, proposal)) ((eq_iff strategy key).0 same)
            ∙ ap (λ (b : String). (key, b)) (sym found))
      | inr differs ↦ inr (proposal_of-Has strategy proposal rest (ground arith))
    ]

only_promoted : (s : Stage) → contains (stage_value s) ("PROMOTED" ∷ []) ≡ true → s ≡ promoted
unfolding contains
only_promoted promoted h = refl
only_promoted draft h = absurd (false≢true h)
only_promoted compliance h = absurd (false≢true h)
only_promoted legal h = absurd (false≢true h)
only_promoted backtest h = absurd (false≢true h)
only_promoted risk h = absurd (false≢true h)
only_promoted canary h = absurd (false≢true h)
only_promoted rejected h = absurd (false≢true h)

module _ (g : StrategyGate) (a : Answers) (strict : g.allowed_states ≡ "PROMOTED" ∷ []) where
  check_state-none :
      (r : Result ProposalRecord)
      → check_state g r ≡ none
      → (p : ProposalRecord) × (r ≡ ok p) × (p.state ≡ promoted)
  unfolding check_state
  check_state-none (err why) h = absurd (ground arith)
  check_state-none (ok p) h =
      let listed : contains (stage_value p.state) g.allowed_states ≡ true = ground arith in
      (
        p,
        refl,
        only_promoted p.state (subst (λ l. contains (stage_value p.state) l ≡ true) strict listed),
      )

  check_history-none :
      (answer : Loaded)
      → check_history g a.lookup answer ≡ none
      → (events : List Event) × (p : ProposalRecord) × (answer ≡ loaded events)
        × (fold g.library events a.lookup ≡ ok p)
        × (p.state ≡ promoted)
  unfolding check_history
  check_history-none (load_fails name) h = absurd (ground arith)
  check_history-none (loaded []) h = absurd (ground arith)
  check_history-none (loaded (e ∷ rest)) h =
      let (p, accepted, done) = check_state-none (fold g.library (e ∷ rest) a.lookup) h in
      (e ∷ rest, p, refl, accepted, done)

  check-IsPromoted :
      (strategy : String) → check g a.lookup a.load strategy ≡ none → IsPromoted g a strategy
  unfolding check
  check-IsPromoted strategy h = elim (Option-cases (proposal_of strategy g.strategies)) [
    | inl unmapped ↦ absurd (ground arith)
    | inr (proposal, mapped) ↦
        let (events, p, loads, accepted, done) =
          check_history-none (a.load proposal) (ground arith) in
        record {
          proposal = proposal;
          mapped = proposal_of-Has strategy proposal g.strategies mapped;
          history = events;
          loads = loads;
          folded = p;
          accepted = accepted;
          state = done;
          approvals = fold_promoted g.library events a.lookup p accepted done;
        }
  ]

module _ (p : Parts) (w : World) (x : AttestedOrder) (ref : Option Finite) where
  not_refused : (detail : String) → IsReleased p w x ref (refuses detail) → ⊥
  not_refused detail r = elim r [ ]

  -- A release check that passed stored the manifest.
  release_check-stored :
      (g : ComplianceGates) (written : Written)
      → g.manifest ≡ true
      → IsReleased p w x ref (release_check g written)
      → (digest : String) × (written ≡ stored digest)
  unfolding release_check
  release_check-stored g (stored digest) on r = (digest, refl)
  release_check-stored g (write_fails what) on r = absurd (
      not_refused _ (
        subst
          (λ (b : Bool).
            IsReleased p w x ref
              (if b then refuses ("manifest not stored: " ++ what) else not_given))
          on r))

-- The service's gates are those of a production configuration that does not admit canaries.
pub record IsStrict (desk : Desk) : Type 0 where
  pub lower : String → String
  pub env : String → Option String
  pub config : ComplianceConfig
  pub library : Library
  pub strategies : List (String × String)
  pub read : from_env lower env true ≡ some config
  pub no_canary : config.allow_canary ≡ false
  pub gates : desk.gates ≡ build_compliance library strategies config

-- What such gates are.
record HasGates (g : ComplianceGates) : Type 0 where
  writes : g.manifest ≡ true
  gate : StrategyGate
  gated : g.strategy_gate ≡ some gate
  strict : gate.allowed_states ≡ "PROMOTED" ∷ []

build-HasGates :
    (lib : Library) (strategies : List (String × String)) (c : ComplianceConfig)
    → is_some c.manifest_dir ≡ true
    → is_some c.strategy_map_file ≡ true
    → c.allow_canary ≡ false
    → HasGates (build_compliance lib strategies c)
unfolding build_compliance
build-HasGates lib strategies c dir file no_canary = elim (Option-cases c.strategy_map_file) [
  | inl absent ↦ absurd (ground arith)
  | inr (path, there) ↦ record {
    writes = dir;
    gate = record {
      library = lib;
      strategies = strategies;
      allowed_states = allowed_states c.allow_canary;
    };
    gated = rw there refl;
    strict = rw no_canary refl;
  }
]

IsStrict-HasGates : (desk : Desk) → IsStrict desk → HasGates desk.gates
IsStrict-HasGates desk s =
    let (dir, file) = from_env_production s.lower s.env s.config s.read in
    subst HasGates (sym s.gates)
      (build-HasGates s.library s.strategies s.config dir file s.no_canary)

check_strategy-check :
    (g : ComplianceGates) (gate : StrategyGate) (lookup : AuditLookup) (load : String → Loaded)
    (signal : TradeSignal)
    → g.strategy_gate ≡ some gate
    → check_strategy g lookup load signal ≡ none
    → check gate lookup load signal.strategy_id ≡ none
unfolding check_strategy
check_strategy-check g gate lookup load signal gated h = ground arith

-- What holds of the request when a production motor sends its order.
pub record IsCompliant (desk : Desk) (a : Answers) (r : ExecuteRequest) : Type 0 where
  pub order : AttestedOrder
  pub approved : IsApproved desk r.decision order
  pub bound : IsBound desk a r
  pub gate : StrategyGate
  pub gated : desk.gates.strategy_gate ≡ some gate
  pub promoted : IsPromoted gate a bound.signal.strategy_id
  pub manifest : (digest : String) × (a.written ≡ stored digest)

-- Under the gates of a production configuration without canaries, a request sends nothing to the
-- broker, or its decision is a complete approval, its context has the signal and the symbol of the
-- order, the gate of the service maps the strategy of the context to a proposal whose history was
-- accepted as promoted with the six approvals, and the manifest was stored.
pub handle_request_promoted :
    (desk : Desk) (a : Answers) (r : ExecuteRequest) (ref : Option Finite) (m : Motor)
    → IsStrict desk
    → ((handle_request desk a r ref m).1.sent ≡ m.sent) ⊎ IsCompliant desk a r
handle_request_promoted desk a r ref m s =
    let gates = IsStrict-HasGates desk s in
    elim (handle_request-Sent desk a r ref m) [
      | inl same ↦ inl same
      | inr (x, approved, bound, (venue, n, sent, sends)) ↦ inr (record {
        order = x;
        approved = approved;
        bound = bound;
        gate = gates.gate;
        gated = gates.gated;
        promoted = check-IsPromoted gates.gate a gates.strict bound.signal.strategy_id (
            check_strategy-check desk.gates gates.gate a.lookup a.load bound.signal gates.gated
              bound.may_trade);
        manifest =
            release_check-stored desk.parts (world_of desk a) x ref desk.gates a.written
              gates.writes sends.released;
      })
    ]

-- Under the gates of a production configuration without canaries a bare decision is rejected for its
-- missing context, leaves the motor as it was, and gives the reporter nothing.
pub handle_decision_strict :
    (desk : Desk) (a : Answers) (d : AegisDecision) (ref : Option Finite) (m : Motor)
    → IsStrict desk
    → let (report, after, given) = handle_decision desk a d ref m in
      (report.status ≡ ExecutionStatus.rejected)
      × (report.reject_reason ≡ some context_missing)
      × (after ≡ m)
      × (given ≡ [])
unfolding handle_decision requires_context invalid_report
handle_decision_strict desk a d ref m s =
    rw (IsStrict-HasGates desk s).writes (refl, refl, refl, refl)
