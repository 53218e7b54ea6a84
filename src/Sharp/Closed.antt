-- ===== src/Sharp/Closed.antt =====
-- gate.py of afe_sharp: sequences of its commands, one after the other, each with its own answers of
-- the audit log, the store, the authorizer and the clock.
use mathlib.Core.Path.{subst}
use mathlib.Core.List.{◌++◌ as append}
use agentic_fintech_ecosyste.Prelude.{
  ℕ, String, Bool, true, false, Option, none, some, List, [], ◌∷◌, ◌≡◌, ◌⊎◌, inl, inr, refl, sym,
  ap, ◌∙◌, arith, str_eq, eq_iff, Bool-cases, Option-cases, if◌then◌else◌,
}
use agentic_fintech_ecosyste.Sharp.Json.{Library}
use agentic_fintech_ecosyste.Sharp.Models.{
  Stage, is_terminal, normalise_identity, store_failure, Proposal, Event, ProposalRecord,
  SharpError, proposal_closed, Result, ok, err,
}
use agentic_fintech_ecosyste.Sharp.Fold.{
  AuditLookup, Progress, verify_audit_records, is_first, fold_rest, initial, conclude, fold,
}
use agentic_fintech_ecosyste.Sharp.Stored.{stored_proposal}
use agentic_fintech_ecosyste.Sharp.Gate.{Disk, Ports, history, stored_event, commit}
use agentic_fintech_ecosyste.Sharp.Rows.{commit-IsAdded}
use agentic_fintech_ecosyste.Sharp.Requests.{
  new_event, record_of, get_record, when_open, open_record, checked, commit_and_get, approve_open,
  approve, reject_open, reject, submit_new, submit,
}

-- A call of `submit`, `approve` or `reject`.
pub data Command : Type 0 where
  submits : Ports → Proposal → Command
  approves : Ports → String → String → Stage → List String → String → Command
  rejects : Ports → String → String → String → Command

unfoldable pub run_command : Library → Command → Disk → Disk
run_command lib (submits ports p) d = (submit lib ports p d).1
run_command lib (approves ports proposal_id who stage refs note) d =
    (approve lib ports proposal_id who stage refs note d).1
run_command lib (rejects ports proposal_id who reason) d =
    (reject lib ports proposal_id who reason d).1

unfoldable pub run_commands : Library → List Command → Disk → Disk
run_commands lib [] d = d
run_commands lib (c ∷ rest) d = run_commands lib rest (run_command lib c d)

-- The same record, or no record.
abbrev Agrees : ProposalRecord → Result ProposalRecord → Type 0
Agrees r answer = (answer ≡ ok r) ⊎ ((why : SharpError) × (answer ≡ err why))

when_open_over :
    (r : ProposalRecord) → is_terminal r.state ≡ true → when_open (ok r) ≡ err proposal_closed
unfolding when_open
when_open_over r over = rw over refl

when_open_err : (why : SharpError) → when_open (err why) ≡ err why
unfolding when_open
when_open_err why = refl

module _ (lib : Library) (a b : AuditLookup) where
  conclude-Agrees :
      (events : List Event) (proposal : Proposal) (p : Progress) (r : ProposalRecord)
      → conclude lib events a proposal p ≡ ok r
      → Agrees r (conclude lib events b proposal p)
  unfolding conclude
  conclude-Agrees events proposal p r h = elim (Option-cases (verify_audit_records lib events a)) [
    | inr (why, refused) ↦ absurd (ground arith)
    | inl fine ↦ elim (Option-cases (verify_audit_records lib events b)) [
      | inr (why, refused) ↦ inr (why, rw (refused, conclude) refl)
      | inl fine' ↦ inl (ground arith)
    ]
  ]

  -- The end of `fold`, by the progress of its loop.
  finished : List Event → Proposal → AuditLookup → Result Progress → Result ProposalRecord
  finished events proposal audit (err why) = err why
  finished events proposal audit (ok p) = conclude lib events audit proposal p

  finished-Agrees :
      (events : List Event) (proposal : Proposal) (answer : Result Progress) (r : ProposalRecord)
      → finished events proposal a answer ≡ ok r
      → Agrees r (finished events proposal b answer)
  unfolding finished
  finished-Agrees events proposal (err why) r h = inr (why, refl)
  finished-Agrees events proposal (ok p) r h = conclude-Agrees events proposal p r h

  module _ (r : ProposalRecord) where
    if-Agrees :
        (test : Bool) (x x' y y' : Result ProposalRecord)
        → (x ≡ ok r → Agrees r x')
        → (y ≡ ok r → Agrees r y')
        → (if test then x else y) ≡ ok r
        → Agrees r (if test then x' else y')
    if-Agrees true x x' y y' f g h = f h
    if-Agrees false x x' y y' f g h = g h

    Option-Agrees :
        {A : Type 0} (o : Option A) (why : SharpError) (f g : A → Result ProposalRecord)
        → ((v : A) → f v ≡ ok r → Agrees r (g v))
        → (elim o [ none ↦ err why | some v ↦ f v ]) ≡ ok r
        → Agrees r (elim o [ none ↦ err why | some v ↦ g v ])
    Option-Agrees none why f g both h = inr (why, refl)
    Option-Agrees (some v) why f g both h = both v h

    -- Another lookup of the audit log gives the same record of a history, or none.
    fold-Agrees : (events : List Event) → fold lib events a ≡ ok r → Agrees r (fold lib events b)
    unfolding fold finished
    fold-Agrees [] h = absurd (ground arith)
    fold-Agrees (first ∷ rest) h =
        let failed : (err store_failure ≡ ok r → Agrees r (err store_failure)) =
          λ e. inr (store_failure, refl) in
        if-Agrees (str_eq first.kind "submitted") _ _ _ _
          (Option-Agrees (stored_proposal lib first) store_failure _ _ (λ proposal.
            Option-Agrees (normalise_identity lib proposal.proposer_id) store_failure _ _
              (λ submitter.
                if-Agrees (is_first lib proposal first) _ _ _ _
                  (finished-Agrees (first ∷ rest) proposal
                    (fold_rest lib proposal.proposal_id submitter 2 initial rest) r)
                  failed)))
          failed h

    record_of-Agrees :
        (events : List Event) → record_of lib a events ≡ ok r → Agrees r (record_of lib b events)
    unfolding record_of
    record_of-Agrees [] h = absurd (ground arith)
    record_of-Agrees (e ∷ rest) h = fold-Agrees (e ∷ rest) h

  -- So a closed proposal is never opened, whatever the lookup answers.
  open_record-closed :
      (proposal_id : String) (rows : List Event) (r : ProposalRecord)
      → get_record lib a proposal_id rows ≡ ok r
      → is_terminal r.state ≡ true
      → (why : SharpError) × (open_record lib b proposal_id rows ≡ err why)
  unfolding get_record open_record
  open_record-closed proposal_id rows r got over =
      elim (record_of-Agrees r (history proposal_id rows) got) [
        | inl same ↦ (proposal_closed, ap when_open same ∙ when_open_over r over)
        | inr (why, failed) ↦ (why, ap when_open failed ∙ when_open_err why)
      ]

-- The later disk has the same history of the proposal.
abbrev Kept : String → Disk → Disk → Type 0
Kept proposal_id d d' = history proposal_id d'.rows ≡ history proposal_id d.rows

history-append_other :
    (proposal_id : String) (row : Event) (rows : List Event)
    → str_eq row.proposal_id proposal_id ≡ false
    → history proposal_id (append rows (row ∷ [])) ≡ history proposal_id rows
unfolding history
history-append_other proposal_id row [] other = rw other refl
history-append_other proposal_id row (e ∷ rest) other =
    ap (λ (more : List Event). if str_eq e.proposal_id proposal_id then e ∷ more else more)
      (history-append_other proposal_id row rest other)

module _ (lib : Library) (ports : Ports) (proposal_id : String) (d : Disk) where
  commit-Kept :
      (e : Event) (expected : ℕ)
      → str_eq e.proposal_id proposal_id ≡ false
      → Kept proposal_id d (commit lib ports e expected d).1
  commit-Kept e expected other = elim (commit-IsAdded lib ports e expected d) [
    | inl same ↦ ap (λ rows. history proposal_id rows) same
    | inr (payload, seq, digest, made, added, logged) ↦
        ap (λ rows. history proposal_id rows) added
        ∙ history-append_other proposal_id (stored_event e seq digest) d.rows other
  ]

  commit_and_get-Kept :
      (e : Event) (expected : ℕ)
      → str_eq e.proposal_id proposal_id ≡ false
      → Kept proposal_id d (commit_and_get lib ports e expected d).1
  unfolding commit_and_get
  commit_and_get-Kept e expected other = commit-Kept e expected other

  checked-Kept :
      (answer : Option SharpError) (e : Event) (expected : ℕ)
      → str_eq e.proposal_id proposal_id ≡ false
      → Kept proposal_id d (checked lib ports answer e expected d).1
  unfolding checked
  checked-Kept (some why) e expected other = refl
  checked-Kept none e expected other = commit_and_get-Kept e expected other

  module _ (q who : String) where
    approve_open-Kept :
        (answer : Result ProposalRecord) (stage : Stage) (refs : List String) (note : String)
        → ((why : SharpError) × (answer ≡ err why)) ⊎ (str_eq q proposal_id ≡ false)
        → Kept proposal_id d (approve_open lib ports answer q who stage refs note d).1
    unfolding approve_open new_event
    approve_open-Kept (err why) stage refs note h = refl
    approve_open-Kept (ok r) stage refs note (inl (why, failed)) = absurd (ground arith)
    approve_open-Kept (ok r) stage refs note (inr other) = checked-Kept _ _ _ other

    reject_open-Kept :
        (answer : Result ProposalRecord) (reason : String)
        → ((why : SharpError) × (answer ≡ err why)) ⊎ (str_eq q proposal_id ≡ false)
        → Kept proposal_id d (reject_open lib ports answer q who reason d).1
    unfolding reject_open new_event
    reject_open-Kept (err why) reason h = refl
    reject_open-Kept (ok r) reason (inl (why, failed)) = absurd (ground arith)
    reject_open-Kept (ok r) reason (inr other) = checked-Kept _ _ _ other

  module _ (lookup : AuditLookup) (r : ProposalRecord)
      (got : get_record lib lookup proposal_id d.rows ≡ ok r)
      (over : is_terminal r.state ≡ true) where
    -- A command finds no open record, or is about another proposal.
    refuses_or_other :
        (q : String)
        → ((why : SharpError) × (open_record lib ports.lookup q d.rows ≡ err why))
          ⊎ (str_eq q proposal_id ≡ false)
    refuses_or_other q = elim (Bool-cases (str_eq q proposal_id)) [
      | inr other ↦ inr other
      | inl same ↦ inl (
          subst
            (λ (id : String).
              (why : SharpError) × (open_record lib ports.lookup id d.rows ≡ err why))
            (sym ((eq_iff q proposal_id).0 same))
            (open_record-closed lib lookup ports.lookup proposal_id d.rows r got over))
    ]

    submit_new-Kept :
        (events : List Event) (p : Proposal)
        → (events ≡ history proposal_id d.rows) ⊎ (str_eq p.proposal_id proposal_id ≡ false)
        → Kept proposal_id d (submit_new lib ports events p d).1
    unfolding submit_new new_event get_record record_of
    submit_new-Kept (e ∷ rest) p h = refl
    submit_new-Kept [] p (inl empty) =
        let missing : record_of lib lookup [] ≡ ok r =
          ap (λ events. record_of lib lookup events) empty ∙ got in
        absurd (ground arith)
    submit_new-Kept [] p (inr other) = commit_and_get-Kept _ _ other

    submit-Kept : (p : Proposal) → Kept proposal_id d (submit lib ports p d).1
    unfolding submit
    submit-Kept p =
        submit_new-Kept (history p.proposal_id d.rows) p
          (elim (Bool-cases (str_eq p.proposal_id proposal_id)) [
            | inr other ↦ inr other
            | inl same ↦ inl (
                ap (λ (id : String). history id d.rows) ((eq_iff p.proposal_id proposal_id).0 same))
          ])

run_command-Kept :
    (lib : Library) (c : Command) (proposal_id : String) (lookup : AuditLookup) (r : ProposalRecord)
    (d : Disk)
    → get_record lib lookup proposal_id d.rows ≡ ok r
    → is_terminal r.state ≡ true
    → Kept proposal_id d (run_command lib c d)
unfolding run_command approve reject
run_command-Kept lib (submits ports p) proposal_id lookup r d got over =
    submit-Kept lib ports proposal_id d lookup r got over p
run_command-Kept lib (approves ports q who stage refs note) proposal_id lookup r d got over =
    approve_open-Kept lib ports proposal_id d q who _ stage refs note
      (refuses_or_other lib ports proposal_id d lookup r got over q)
run_command-Kept lib (rejects ports q who reason) proposal_id lookup r d got over =
    reject_open-Kept lib ports proposal_id d q who _ reason
      (refuses_or_other lib ports proposal_id d lookup r got over q)

-- Once the stored history of a proposal folds to a promoted or rejected record, no sequence of
-- commands, on this and other proposals, changes that history, whatever the audit log, the store,
-- the authorizer and the clock answer in each of them.
pub run_commands-closed :
    (lib : Library) (commands : List Command) (proposal_id : String) (lookup : AuditLookup)
    (r : ProposalRecord) (d : Disk)
    → get_record lib lookup proposal_id d.rows ≡ ok r
    → is_terminal r.state ≡ true
    → history proposal_id (run_commands lib commands d).rows ≡ history proposal_id d.rows
unfolding run_commands get_record
run_commands-closed lib [] proposal_id lookup r d got over = refl
run_commands-closed lib (c ∷ rest) proposal_id lookup r d got over =
    let kept = run_command-Kept lib c proposal_id lookup r d got over in
    let still : get_record lib lookup proposal_id (run_command lib c d).rows ≡ ok r =
      ap (λ events. record_of lib lookup events) kept ∙ got in
    run_commands-closed lib rest proposal_id lookup r (run_command lib c d) still over ∙ kept
