-- ===== src/Sharp/Models.antt =====
-- models.py of afe_sharp: stages, proposals, transitions, and the checks of stored values.
use agentic_fintech_ecosyste.Prelude.{
  ℕ, String, Bool, true, false, Option, none, some, List, [], ◌∷◌, codes, ◌==◌, ◌||◌, ◌&&◌, length,
  ltb, is_blank, if◌then◌else◌,
}
use agentic_fintech_ecosyste.Sharp.Json.{
  Json, null, number, text, object, no_members, member, Library, has_nul,
}

pub data Stage : Type 0 where
  draft compliance legal backtest risk canary promoted rejected : Stage

abbrev pub rank : Stage → ℕ
rank draft = 0
rank compliance = 1
rank legal = 2
rank backtest = 3
rank risk = 4
rank canary = 5
rank promoted = 6
rank rejected = 7

abbrev pub same_stage : Stage → Stage → Bool
same_stage a b = rank a == rank b

abbrev pub is_from : Option Stage → Stage → Bool
is_from none s = false
is_from (some a) s = same_stage a s

abbrev pub is_terminal : Stage → Bool
is_terminal promoted = true
is_terminal rejected = true
is_terminal _ = false

-- The next stage of `PIPELINE`, for a state that is not terminal.
abbrev pub next_stage : Stage → Option Stage
next_stage draft = some compliance
next_stage compliance = some legal
next_stage legal = some backtest
next_stage backtest = some risk
next_stage risk = some canary
next_stage canary = some promoted
next_stage promoted = none
next_stage rejected = none

abbrev pub stage_value : Stage → String
stage_value draft = "DRAFT"
stage_value compliance = "COMPLIANCE"
stage_value legal = "LEGAL"
stage_value backtest = "BACKTEST"
stage_value risk = "RISK"
stage_value canary = "CANARY"
stage_value promoted = "PROMOTED"
stage_value rejected = "REJECTED"

abbrev max_text : ℕ
max_text = 20_000

-- `normalise_identity`; `none` is the `ProposalValidationError`.
unfoldable pub normalise_identity : Library → String → Option String
normalise_identity lib identity =
    if is_blank identity || has_nul identity then none else some (lib.canonical identity)

-- `_text`, of a text.
unfoldable pub is_valid_text : String → Bool
is_valid_text value =
    if is_blank value || ltb max_text (length (codes value)) || has_nul value then false else true

pub record Proposal : Type 0 where
  pub proposal_id : String
  pub proposer_id : String
  pub description : String
  pub proposed_change : String
  pub rationale : String
  pub evidence_refs : List String

all_valid : List String → Bool
all_valid [] = true
all_valid (ref ∷ rest) = is_valid_text ref && all_valid rest

abbrev is_identity : Option String → Bool
is_identity none = false
is_identity (some _) = true

abbrev is_missing : List String → Bool
is_missing [] = true
is_missing (_ ∷ _) = false

-- `RubricChangeProposal.__post_init__`
unfoldable pub is_valid_proposal : Library → Proposal → Bool
unfolding all_valid
is_valid_proposal lib p =
    is_valid_text p.proposal_id
    && is_identity (normalise_identity lib p.proposer_id)
    && is_valid_text p.description
    && is_valid_text p.proposed_change
    && is_valid_text p.rationale
    && (if is_missing p.evidence_refs then false else all_valid p.evidence_refs)

pub record Event : Type 0 where
  pub proposal_id : String
  pub version : ℕ
  pub kind : String
  pub from_state : Option Stage
  pub to_state : Stage
  pub actor : String
  pub occurred_at : ℕ
  pub detail_json : String
  pub audit_seq : Option ℕ
  pub audit_hash : Option String

pub record AuditEntry : Type 0 where
  pub seq : ℕ
  pub hash : String
  pub event_type : String
  pub actor : String
  pub payload : Json

pub record Approval : Type 0 where
  pub stage : Stage
  pub approver_id : String
  pub occurred_at : ℕ
  pub evidence_refs : List Json
  pub note : String

pub record ProposalRecord : Type 0 where
  pub proposal : Proposal
  pub state : Stage
  pub version : ℕ
  pub approvals : List Approval
  pub rejected_by : Option String
  pub rejection_reason : Option String

-- The exceptions of errors.py, and the two of Python that `fold` lets through.
pub data SharpError : Type 0 where
  proposal_validation unknown_proposal duplicate_proposal proposal_closed stage_skip self_approval
        distinct_approver not_authorized concurrency store_failure audit_failure abort_not_recorded
        type_error value_error other_error :
      SharpError

pub data Result {ℓ} (A : Type ℓ) : Type ℓ where
  ok : A → Result A
  err : SharpError → Result A

abbrev from_value : Option Stage → Json
from_value none = null
from_value (some s) = text (stage_value s)

-- `transition_payload`; `none` is the `ValueError` of a detail that is no JSON.
unfoldable pub transition_payload : Library → Event → Option Json
transition_payload lib e = elim (lib.loads e.detail_json) [
  | none ↦ none
  | some detail ↦ some (
      object (
        member "proposal_id" (text e.proposal_id) (
          member "version" (number e.version) (
            member "kind" (text e.kind) (
              member "from_state" (from_value e.from_state) (
                member "to_state" (text (stage_value e.to_state)) (
                  member "occurred_at" (text (lib.utc e.occurred_at))
                    (member "detail" detail no_members))))))))
]
