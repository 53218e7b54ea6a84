-- ===== src/Sharp/Fold.antt =====
-- models.py of afe_sharp: `fold`, which rebuilds a record from a stored history.
use Prim.Native.String.{◌++◌}
use mathlib.Core.List.{◌++◌ as append}
use agentic_fintech_ecosyste.Prelude.{
  ℕ, suc, String, Bool, true, false, Option, none, some, List, [], ◌∷◌, str_eq, ◌==◌, ◌||◌, ◌&&◌,
  not, length, if◌then◌else◌, contains,
}
use agentic_fintech_ecosyste.Sharp.Json.{Json, Library}
use agentic_fintech_ecosyste.Sharp.Models.{
  Stage, draft, rejected, is_from, same_stage, is_terminal, next_stage, normalise_identity,
  Proposal, Event, AuditEntry, Approval, ProposalRecord, SharpError, store_failure, value_error,
  Result, ok, err, transition_payload,
}
use agentic_fintech_ecosyste.Sharp.Stored.{stored_proposal, approval, stored_reason}

-- The variables of the loop of `fold`.
pub record Progress : Type 0 where
  pub state : Stage
  pub approvals : List Approval
  pub signers : List String
  pub rejected_by : Option String
  pub reason : Option String

abbrev pub initial : Progress
initial = record { state = draft; approvals = []; signers = []; rejected_by = none; reason = none }

module _ (lib : Library) (proposal_id submitter : String) where
  -- The end of that branch, by what `_approval` returns.
  unfoldable pub signed : Progress → Event → String → Result Approval → Result Progress
  signed p e who (err why) = err why
  signed p e who (ok a) = ok (record p {
    state = e.to_state;
    approvals = append p.approvals (a ∷ []);
    signers = append p.signers (who ∷ []);
  })

  -- The branch of an approval.
  unfoldable pub fold_approved : Progress → Event → Result Progress
  fold_approved p e =
      if is_from (next_stage p.state) e.to_state
      then elim (normalise_identity lib e.actor) [
        | none ↦ err store_failure
        | some who ↦
            if str_eq who submitter || contains who p.signers
            then err store_failure
            else signed p e who (approval lib e)
      ]
      else err store_failure

  -- The branch of a rejection.
  unfoldable pub fold_rejected : Progress → Event → Result Progress
  fold_rejected p e = elim (normalise_identity lib e.actor) [
    | none ↦ err store_failure
    | some who ↦ elim (stored_reason lib e) [
      | none ↦ err store_failure
      | some why ↦
          ok (record p { state = e.to_state; rejected_by = some e.actor; reason = some why })
    ]
  ]

  -- One round of the loop, for an event after the first.
  unfoldable pub fold_event : ℕ → Progress → Event → Result Progress
  fold_event index p e =
      if not (e.version == index && str_eq e.proposal_id proposal_id)
      then err store_failure
      else if is_terminal p.state || not (is_from e.from_state p.state)
      then err store_failure
      else if str_eq e.kind "approved"
      then fold_approved p e
      else if str_eq e.kind "rejected" && same_stage e.to_state rejected
      then fold_rejected p e
      else err store_failure

  -- The loop from the second event on.
  unfoldable pub fold_rest : ℕ → Progress → List Event → Result Progress
  fold_rest index p [] = ok p
  fold_rest index p (e ∷ rest) = elim (fold_event index p e) [
    | err why ↦ err why
    | ok p' ↦ fold_rest (suc index) p' rest
  ]

-- The audit records that are found under some numbers; `none` is the `StoreError` of a log that
-- cannot answer.
abbrev pub AuditLookup : Type 0
AuditLookup = List ℕ → Option (ℕ → Option AuditEntry)

-- The numbers of the audit records that the events name.
unfoldable pub seqs_of : List Event → Option (List ℕ)
seqs_of [] = some []
seqs_of (e ∷ rest) = elim e.audit_seq [
  | none ↦ none
  | some seq ↦ elim e.audit_hash [
    | none ↦ none
    | some digest ↦ elim (seqs_of rest) [ none ↦ none | some more ↦ some (seq ∷ more) ]
  ]
]

abbrev pub has_seq : ℕ → List ℕ → Bool
has_seq n [] = false
has_seq n (k ∷ rest) = n == k || has_seq n rest

abbrev pub no_repeat : List ℕ → Bool
no_repeat [] = true
no_repeat (n ∷ rest) = not (has_seq n rest) && no_repeat rest

abbrev pub hash_is : Option String → String → Bool
hash_is none digest = false
hash_is (some h) digest = str_eq h digest

module _ (lib : Library) where
  -- The record says the same as the event.
  unfoldable pub is_matching : Event → AuditEntry → Json → Bool
  is_matching e entry payload =
      hash_is e.audit_hash entry.hash
      && str_eq entry.event_type ("sharp." ++ e.kind)
      && str_eq entry.actor e.actor
      && lib.equal entry.payload payload

  -- The loop over the events and what was found for each; `none` when every one is matched.
  unfoldable pub check_found : List Event → (ℕ → Option AuditEntry) → Option SharpError
  check_found [] found = none
  check_found (e ∷ rest) found = elim e.audit_seq [
    | none ↦ some store_failure
    | some seq ↦ elim (found seq) [
      | none ↦ some store_failure
      | some entry ↦ elim (transition_payload lib e) [
        | none ↦ some value_error
        | some payload ↦
            let more = check_found rest found in
            if is_matching e entry payload then more else some store_failure
      ]
    ]
  ]

  -- `_verify_audit_records`
  unfoldable pub verify_audit_records : List Event → AuditLookup → Option SharpError
  verify_audit_records events audit = elim (seqs_of events) [
    | none ↦ some store_failure
    | some seqs ↦
        if no_repeat seqs
        then elim (audit seqs) [ none ↦ some store_failure | some found ↦ check_found events found ]
        else some store_failure
  ]

  -- The end of `fold`.
  unfoldable pub conclude : List Event → AuditLookup → Proposal → Progress → Result ProposalRecord
  conclude events audit proposal p = elim (verify_audit_records events audit) [
    | some why ↦ err why
    | none ↦ ok (record {
      proposal = proposal;
      state = p.state;
      version = length events;
      approvals = p.approvals;
      rejected_by = p.rejected_by;
      rejection_reason = p.reason;
    })
  ]

  -- The first event creates the draft.
  unfoldable pub is_first : Proposal → Event → Bool
  is_first proposal e =
      e.version == 1
      && str_eq e.proposal_id proposal.proposal_id
      && same_stage e.to_state draft
      && is_absent e.from_state
    where
      is_absent : Option Stage → Bool
      is_absent none = true
      is_absent (some s) = false

  unfoldable pub fold : List Event → AuditLookup → Result ProposalRecord
  fold [] audit = err store_failure
  fold (first ∷ rest) audit =
      if str_eq first.kind "submitted"
      then elim (stored_proposal lib first) [
        | none ↦ err store_failure
        | some proposal ↦ elim (normalise_identity lib proposal.proposer_id) [
          | none ↦ err store_failure
          | some submitter ↦
              if is_first proposal first
              then elim (fold_rest lib proposal.proposal_id submitter 2 initial rest) [
                | err why ↦ err why
                | ok p ↦ conclude (first ∷ rest) audit proposal p
              ]
              else err store_failure
        ]
      ]
      else err store_failure
