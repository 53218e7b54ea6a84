-- ===== src/Sharp/Guards.antt =====
-- gate.py of afe_sharp: what an approval must pass before anything is written.
use mathlib.Core.Path.{subst}
use agentic_fintech_ecosyste.Prelude.{
  String, Bool, true, false, Option, none, some, List, ◌≡◌, ◌⊎◌, inl, inr, refl, arith, sym, ◌∙◌,
  Option-cases, Bool-cases,
}
use agentic_fintech_ecosyste.Sharp.Json.{Library}
use agentic_fintech_ecosyste.Sharp.Models.{
  Stage, SharpError, ProposalRecord, Result, ok, err, next_stage, is_terminal, normalise_identity,
}
use agentic_fintech_ecosyste.Sharp.Reached.{OnOk, is_from_eq}
use agentic_fintech_ecosyste.Sharp.Gate.{Disk, Ports}
use agentic_fintech_ecosyste.Sharp.Requests.{
  get_record, when_open, open_record, verdict, same_identity, has_signed, approve_checks,
  commit_and_get, approved_event, checked, approve_open, approve,
}
use agentic_fintech_ecosyste.Sharp.Rows.{IsAdded, commit-IsAdded}

when_open_live : (r : ProposalRecord) → is_terminal r.state ≡ false → when_open (ok r) ≡ ok r
unfolding when_open
when_open_live r live = rw live

when_open_eq :
    (answer : Result ProposalRecord) (r : ProposalRecord)
    → when_open answer ≡ ok r
    → (answer ≡ ok r) × (is_terminal r.state ≡ false)
unfolding when_open
when_open_eq (err why) r h = absurd (ground arith)
when_open_eq (ok q) r h = elim (Bool-cases (is_terminal q.state)) [
  | inl over ↦ absurd (ground arith)
  | inr live ↦
      let same : when_open (ok q) ≡ ok q = when_open_live q live in
      (
        sym same ∙ h,
        subst (OnOk (λ (x : ProposalRecord). is_terminal x.state ≡ false)) (sym same ∙ h) live,
      )
]

verdict_eq : (answer : Result Bool) → verdict answer ≡ none → answer ≡ ok true
verdict_eq (ok true) h = refl
verdict_eq (ok false) h = absurd (ground arith)
verdict_eq (err why) h = absurd (ground arith)

module _ (lib : Library) (ports : Ports) where
  -- What an approval has passed.
  pub record IsPermitted (proposal_id approver_id : String) (stage : Stage) (before : Disk)
      (r : ProposalRecord) : Type 0 where
    pub opened : get_record lib ports.lookup proposal_id before.rows ≡ ok r
    pub live : is_terminal r.state ≡ false
    pub following : next_stage r.state ≡ some stage
    pub who : String
    pub named : normalise_identity lib approver_id ≡ some who
    pub not_proposer :
        same_identity (some who) (normalise_identity lib r.proposal.proposer_id) ≡ false
    pub not_signed : has_signed lib (some who) r.approvals ≡ false
    pub authorized : ports.authorize approver_id stage ≡ ok true

  module _ (proposal_id approver_id : String) (stage : Stage) (refs : List String) (note : String)
      (before : Disk) where
    -- How an approval leaves the disk.
    abbrev pub IsApproved : Disk → Type 0
    IsApproved d =
        (d ≡ before)
        ⊎ ((r : ProposalRecord) × IsPermitted proposal_id approver_id stage before r
            × ((d.rows ≡ before.rows)
                ⊎ IsAdded lib ports
                    (approved_event lib ports r proposal_id approver_id stage refs note) before d))

    open_record_eq :
        (r : ProposalRecord)
        → open_record lib ports.lookup proposal_id before.rows ≡ ok r
        → (get_record lib ports.lookup proposal_id before.rows ≡ ok r)
          × (is_terminal r.state ≡ false)
    unfolding open_record
    open_record_eq r h = when_open_eq (get_record lib ports.lookup proposal_id before.rows) r h

    approve_checks-IsPermitted :
        (r : ProposalRecord)
        → open_record lib ports.lookup proposal_id before.rows ≡ ok r
        → approve_checks lib ports r approver_id stage ≡ none
        → IsPermitted proposal_id approver_id stage before r
    unfolding approve_checks
    approve_checks-IsPermitted r opened passed =
        let (got, live) = open_record_eq r opened in
        elim (Option-cases (normalise_identity lib approver_id)) [
          | inl nameless ↦ absurd (ground arith)
          | inr (who, named) ↦ record {
            opened = got;
            live = live;
            following = is_from_eq (next_stage r.state) stage (ground arith);
            who = who;
            named = named;
            not_proposer = ground arith;
            not_signed = ground arith;
            authorized = verdict_eq (ports.authorize approver_id stage) (ground arith);
          }
        ]

    checked-IsApproved :
        (answer : Option SharpError) (r : ProposalRecord)
        → approve_checks lib ports r approver_id stage ≡ answer
        → open_record lib ports.lookup proposal_id before.rows ≡ ok r
        → IsApproved
            (checked lib ports answer
              (approved_event lib ports r proposal_id approver_id stage refs note)
              r.version
              before).1
    unfolding checked commit_and_get
    checked-IsApproved (some why) r passed opened = inl refl
    checked-IsApproved none r passed opened = inr (
      r,
      approve_checks-IsPermitted r opened passed,
      commit-IsAdded lib ports (approved_event lib ports r proposal_id approver_id stage refs note)
          r.version before,
    )

    approve_open-IsApproved :
        (answer : Result ProposalRecord)
        → open_record lib ports.lookup proposal_id before.rows ≡ answer
        → IsApproved
            (approve_open lib ports answer proposal_id approver_id stage refs note before).1
    unfolding approve_open
    approve_open-IsApproved (err why) opened = inl refl
    approve_open-IsApproved (ok r) opened =
        checked-IsApproved (approve_checks lib ports r approver_id stage) r refl opened

    -- An approval writes nothing to the audit log or the store unless the stored history folds to an
    -- open record whose next stage is the stage asked for, the approver is neither the proposer nor
    -- one who signed an earlier stage, and the authorizer allows it. It then adds no row, or the one
    -- of that approval, whose record stands in the audit log.
    pub approve-IsApproved :
        IsApproved (approve lib ports proposal_id approver_id stage refs note before).1
    unfolding approve
    approve-IsApproved =
        approve_open-IsApproved (open_record lib ports.lookup proposal_id before.rows) refl
