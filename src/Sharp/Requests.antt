-- ===== src/Sharp/Requests.antt =====
-- gate.py of afe_sharp: the query and the three commands of `SharpGate`.
use agentic_fintech_ecosyste.Prelude.{
  ℕ, ◌+◌, String, Bool, true, false, not, Option, none, some, List, [], ◌∷◌, str_eq, ◌||◌, is_blank,
  if◌then◌else◌,
}
use agentic_fintech_ecosyste.Sharp.Json.{
  Json, text, array, object, no_members, member, Library, array_of,
}
use agentic_fintech_ecosyste.Sharp.Models.{
  Stage, draft, rejected, is_from, is_terminal, next_stage, normalise_identity, Proposal, Event,
  Approval, ProposalRecord, SharpError, proposal_validation, unknown_proposal, duplicate_proposal,
  proposal_closed, stage_skip, self_approval, distinct_approver, not_authorized, Result, ok, err,
}
use agentic_fintech_ecosyste.Sharp.Fold.{AuditLookup, fold}
use agentic_fintech_ecosyste.Sharp.Gate.{Disk, Ports, history, commit}

-- The end of `get`, by the history that the store has.
unfoldable pub record_of : Library → AuditLookup → List Event → Result ProposalRecord
record_of lib lookup [] = err unknown_proposal
record_of lib lookup (e ∷ rest) = fold lib (e ∷ rest) lookup

-- `SharpGate.get`
unfoldable pub get_record : Library → AuditLookup → String → List Event → Result ProposalRecord
get_record lib lookup proposal_id rows = record_of lib lookup (history proposal_id rows)

-- The end of `_open`, by what `get` returned.
unfoldable pub when_open : Result ProposalRecord → Result ProposalRecord
when_open (err why) = err why
when_open (ok r) = if is_terminal r.state then err proposal_closed else ok r

-- `_open`
unfoldable pub open_record : Library → AuditLookup → String → List Event → Result ProposalRecord
open_record lib lookup proposal_id rows = when_open (get_record lib lookup proposal_id rows)

abbrev pub same_identity : Option String → Option String → Bool
same_identity (some a) (some b) = str_eq a b
same_identity _ _ = false

-- One of the approvals is by this identity.
unfoldable pub has_signed : Library → Option String → List Approval → Bool
has_signed lib who [] = false
has_signed lib who (a ∷ rest) =
    same_identity who (normalise_identity lib a.approver_id) || has_signed lib who rest

-- What an authorizer's answer comes to.
abbrev pub verdict : Result Bool → Option SharpError
verdict (ok true) = none
verdict (ok false) = some not_authorized
verdict (err why) = some why

-- `RubricChangeProposal.to_detail`
unfoldable pub to_detail : Proposal → Json
to_detail p = object (
    member "proposal_id" (text p.proposal_id) (
      member "proposer_id" (text p.proposer_id) (
        member "description" (text p.description) (
          member "proposed_change" (text p.proposed_change) (
            member "rationale" (text p.rationale)
              (member "evidence_refs" (array (array_of p.evidence_refs)) no_members))))))

abbrev approval_detail : List String → String → Json
approval_detail refs note =
    object (member "evidence_refs" (array (array_of refs)) (member "note" (text note) no_members))

abbrev rejection_detail : String → Json
rejection_detail reason = object (member "reason" (text reason) no_members)

-- The checks of `approve` on an open record, in order.
unfoldable pub approve_checks :
    Library → Ports → ProposalRecord → String → Stage → Option SharpError
approve_checks lib ports r approver_id stage =
    if not (is_from (next_stage r.state) stage)
    then some stage_skip
    else elim (normalise_identity lib approver_id) [
      | none ↦ some proposal_validation
      | some who ↦
          if same_identity (some who) (normalise_identity lib r.proposal.proposer_id)
          then some self_approval
          else if has_signed lib (some who) r.approvals
          then some distinct_approver
          else verdict (ports.authorize approver_id stage)
    ]

-- The checks of `reject` on an open record, in order.
unfoldable pub reject_checks :
    Library → Ports → ProposalRecord → String → String → Option SharpError
reject_checks lib ports r approver_id reason =
    if is_blank reason
    then some proposal_validation
    else elim (normalise_identity lib approver_id) [
      | none ↦ some proposal_validation
      | some who ↦ elim (next_stage r.state) [
        | none ↦ some not_authorized
        | some stage ↦ verdict (ports.authorize approver_id stage)
      ]
    ]

-- `_event`
unfoldable pub new_event :
    Library → Ports → String → ℕ → String → Option Stage → Stage → String → Json → Event
new_event lib ports proposal_id version kind from to actor detail = record {
  proposal_id = proposal_id;
  version = version;
  kind = kind;
  from_state = from;
  to_state = to;
  actor = actor;
  occurred_at = ports.now;
  detail_json = lib.dumps detail;
  audit_seq = none;
  audit_hash = none;
}

module _ (lib : Library) (ports : Ports) where
  -- `_commit`, then the final `get`.
  unfoldable pub commit_and_get : Event → ℕ → Disk → Result ProposalRecord × Disk
  commit_and_get e expected disk =
      let (failure, disk') = commit lib ports e expected disk in
      (
        elim failure [
          | some why ↦ err why
          | none ↦ get_record lib ports.lookup_after e.proposal_id disk'.rows
        ],
        disk',
      )

  abbrev pub approved_event :
      ProposalRecord → String → String → Stage → List String → String → Event
  approved_event r proposal_id approver_id stage refs note =
      new_event lib ports proposal_id (r.version + 1) "approved" (some r.state) stage approver_id
        (approval_detail refs note)

  abbrev pub rejected_event : ProposalRecord → String → String → String → Event
  rejected_event r proposal_id approver_id reason =
      new_event lib ports proposal_id (r.version + 1) "rejected" (some r.state) rejected approver_id
        (rejection_detail reason)

  -- What follows the checks of a command, for the event that it would commit.
  unfoldable pub checked : Option SharpError → Event → ℕ → Disk → Result ProposalRecord × Disk
  checked (some why) e expected disk = (err why, disk)
  checked none e expected disk = commit_and_get e expected disk

  -- The rest of `approve`, by the answer of `_open`.
  unfoldable pub approve_open :
      Result ProposalRecord
      → String
      → String
      → Stage
      → List String
      → String
      → Disk
      → Result ProposalRecord × Disk
  approve_open (err why) proposal_id approver_id stage refs note disk = (err why, disk)
  approve_open (ok r) proposal_id approver_id stage refs note disk =
      checked (approve_checks lib ports r approver_id stage)
        (approved_event r proposal_id approver_id stage refs note) r.version disk

  unfoldable pub approve :
      String → String → Stage → List String → String → Disk → Result ProposalRecord × Disk
  approve proposal_id approver_id stage refs note disk =
      approve_open (open_record lib ports.lookup proposal_id disk.rows) proposal_id approver_id
        stage refs note disk

  -- The rest of `reject`, by the answer of `_open`.
  unfoldable pub reject_open :
      Result ProposalRecord → String → String → String → Disk → Result ProposalRecord × Disk
  reject_open (err why) proposal_id approver_id reason disk = (err why, disk)
  reject_open (ok r) proposal_id approver_id reason disk =
      checked (reject_checks lib ports r approver_id reason)
        (rejected_event r proposal_id approver_id reason) r.version disk

  unfoldable pub reject : String → String → String → Disk → Result ProposalRecord × Disk
  reject proposal_id approver_id reason disk =
      reject_open (open_record lib ports.lookup proposal_id disk.rows) proposal_id approver_id
        reason disk

  -- The rest of `submit`, by the history that the store has.
  unfoldable pub submit_new : List Event → Proposal → Disk → Result ProposalRecord × Disk
  submit_new (_ ∷ _) p disk = (err duplicate_proposal, disk)
  submit_new [] p disk =
      commit_and_get
        (new_event lib ports p.proposal_id 1 "submitted" none draft p.proposer_id (to_detail p)) 0
        disk

  unfoldable pub submit : Proposal → Disk → Result ProposalRecord × Disk
  submit p disk = submit_new (history p.proposal_id disk.rows) p disk
