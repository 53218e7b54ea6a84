-- ===== src/Motor/Compliance.antt =====
-- compliance.py: the context of an order, the gate on its strategy, and the manifest before the
-- broker. What the files, the stores and the writer answer are arguments; so are the words of a
-- refusal.
pub mod Config
use Prim.Native.String.{◌++◌}
use agentic_fintech_ecosyste.Prelude.{
  ℕ, String, Bool, true, false, not, Option, none, some, List, [], ◌∷◌, str_eq, is_blank, contains,
  ◌&&◌, ◌||◌, if◌then◌else◌,
}
use agentic_fintech_ecosyste.Sharp.Json.{Library}
use agentic_fintech_ecosyste.Sharp.Models.{
  Stage, stage_value, Event, ProposalRecord, SharpError, Result, ok, err,
}
use agentic_fintech_ecosyste.Sharp.Fold.{AuditLookup, fold}
use agentic_fintech_ecosyste.Motor.Models.{RejectReason, context_missing, context_mismatch}
use agentic_fintech_ecosyste.Motor.World.{ReleaseReply, not_given, passes, refuses}
use agentic_fintech_ecosyste.Motor.Proto.{OrderMessage, AttestationMessage}

-- `AegisDecision`; a message that is not set is missing.
pub record AegisDecision : Type 0 where
  pub decision : ℕ
  pub signal_id : String
  pub order : Option OrderMessage
  pub attestation : Option AttestationMessage

pub record TradeSignal : Type 0 where
  pub signal_id : String
  pub symbol : String
  pub strategy_id : String

-- `ExecutionContext`, by what the motor reads of it; the snapshot is its symbol.
pub record ExecutionContext : Type 0 where
  pub signal : Option TradeSignal
  pub snapshot : Option String

-- The fields of an order message that is not set are empty.
abbrev pub order_text : (OrderMessage → String) → Option OrderMessage → String
order_text field none = ""
order_text field (some o) = field o

pub record ContextRefusal : Type 0 where
  pub reason : RejectReason
  pub detail : String

abbrev refusal : RejectReason → String → Option ContextRefusal
refusal why detail = some (record { reason = why; detail = detail })

-- The end of `bind_context`, for a context with a signal and a snapshot.
unfoldable pub bind_signal : AegisDecision → TradeSignal → String → Option ContextRefusal
bind_signal d signal snapshot_symbol =
    if str_eq signal.signal_id ""
      || not (
          str_eq signal.signal_id d.signal_id
          && str_eq d.signal_id (order_text (λ o. o.signal_id) d.order))
    then refusal context_mismatch "signal_id differs from decision"
    else if not (
        str_eq signal.symbol (order_text (λ o. o.symbol) d.order)
        && str_eq (order_text (λ o. o.symbol) d.order) snapshot_symbol)
    then refusal context_mismatch "symbol differs from decision"
    else if is_blank signal.strategy_id
    then refusal context_mismatch "signal has no strategy_id"
    else none

-- `bind_context`
unfoldable pub bind_context : AegisDecision → ExecutionContext → Option ContextRefusal
bind_context d c = elim c.signal [
  | none ↦ refusal context_missing "context lacks signal or snapshot"
  | some signal ↦ elim c.snapshot [
    | none ↦ refusal context_missing "context lacks signal or snapshot"
    | some symbol ↦ bind_signal d signal symbol
  ]
]

-- What the store of proposals answers to `load`.
pub data Loaded : Type 0 where
  loaded : List Event → Loaded
  load_fails : String → Loaded

-- Why a strategy may not trade.
pub data Blocked : Type 0 where
  unmapped does_not_exist : Blocked
  unverifiable : Option SharpError → Blocked
  wrong_state : Stage → Blocked

-- `SharpStrategyGate`; the mapping from strategies to proposals, and the names of the states.
pub record StrategyGate : Type 0 where
  pub library : Library
  pub strategies : List (String × String)
  pub allowed_states : List String

unfoldable pub proposal_of : String → List (String × String) → Option String
proposal_of strategy [] = none
proposal_of strategy ((key, proposal) ∷ rest) =
    if str_eq strategy key then some proposal else proposal_of strategy rest

-- The history of the proposal, folded against the audit log.
unfoldable pub check_state : StrategyGate → Result ProposalRecord → Option Blocked
check_state g (err why) = some (unverifiable (some why))
check_state g (ok r) =
    if contains (stage_value r.state) g.allowed_states then none else some (wrong_state r.state)

unfoldable pub check_history : StrategyGate → AuditLookup → Loaded → Option Blocked
check_history g lookup (load_fails name) = some (unverifiable none)
check_history g lookup (loaded []) = some does_not_exist
check_history g lookup (loaded (e ∷ rest)) = check_state g (fold g.library (e ∷ rest) lookup)

-- `SharpStrategyGate.check`
unfoldable pub check : StrategyGate → AuditLookup → (String → Loaded) → String → Option Blocked
check g lookup load strategy = elim (proposal_of strategy g.strategies) [
  | none ↦ some unmapped
  | some proposal ↦ check_history g lookup (load proposal)
]

-- `ComplianceGates`; `manifest` is whether there is a writer.
pub record ComplianceGates : Type 0 where
  pub manifest : Bool
  pub strategy_gate : Option StrategyGate

abbrev pub is_some {ℓ} : {A : Type ℓ} → Option A → Bool
is_some none = false
is_some (some a) = true

-- `requires_context`
unfoldable pub requires_context : ComplianceGates → Bool
requires_context g = g.manifest || is_some g.strategy_gate

-- What the writer answers: the digest of the stored manifest, or what it raised, in short.
pub data Written : Type 0 where
  stored : String → Written
  write_fails : String → Written

-- `check_strategy`
unfoldable pub check_strategy :
    ComplianceGates → AuditLookup → (String → Loaded) → TradeSignal → Option Blocked
check_strategy g lookup load signal = elim g.strategy_gate [
  | none ↦ none
  | some gate ↦ check gate lookup load signal.strategy_id
]

-- `release_check`: its answer when the motor calls it.
unfoldable pub release_check : ComplianceGates → Written → ReleaseReply
release_check g (stored digest) = if g.manifest then passes else not_given
release_check g (write_fails what) =
    if g.manifest then refuses ("manifest not stored: " ++ what) else not_given
