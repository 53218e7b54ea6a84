-- ===== src/Sharp/Commit.antt =====
-- gate.py of afe_sharp, `_commit`: the audit record comes first, and every failure is accounted for.
use mathlib.Core.Path.{subst}
use mathlib.Core.List.{◌++◌ as append}
use agentic_fintech_ecosyste.Prelude.{
  ℕ, String, Bool, true, Option, none, some, List, [], ◌∷◌, ◌≡◌, ◌≢◌, ◌⊎◌, inl, inr, refl, arith,
  ap, sym, ◌∙◌, eq_refl, eq_iff, str_eq, Has, Bool-cases, false,
}
use mathlib.Core.Bool.{false≢true}
use agentic_fintech_ecosyste.Sharp.Json.{Json, Library}
use agentic_fintech_ecosyste.Sharp.Models.{
  Event, SharpError, audit_failure, abort_not_recorded, transition_payload,
}
use agentic_fintech_ecosyste.Sharp.Gate.{
  Disk, Ports, AuditReply, committed, recorded_then_raised, not_recorded, StoreReply, honest, lands,
  drops, StoreOutcome, present, absent, unverified, is_next, same_seq, same_hash, has_landed,
  history, append_row, store_outcome, abort_entry, store_error, record_abort, after_failure,
  stored_event, entry_of, after_append, store_step, audit_step, payload_step, commit,
}

-- A row that is stored has landed.
has_landed-append :
    (e : Event) (seq : ℕ) (digest : String) (rows : List Event)
    → has_landed
        (stored_event e seq digest)
        (history e.proposal_id (append rows (stored_event e seq digest ∷ [])))
      ≡ true
unfolding has_landed history
has_landed-append e seq digest [] = ground (arith, eq_refl e.proposal_id, eq_refl digest)
has_landed-append e seq digest (row ∷ rest) = ground (arith, has_landed-append e seq digest rest)

-- A row of the proposal has the version and the audit reference of the event.
pub record IsStored (e : Event) (seq : ℕ) (digest : String) (rows : List Event) : Type 0 where
  pub row : Event
  pub there : Has row rows
  pub proposal : row.proposal_id ≡ e.proposal_id
  pub version : row.version ≡ e.version
  pub number : row.audit_seq ≡ some seq
  pub hash : row.audit_hash ≡ some digest

-- What an outcome tells of the store: it was not read, or the row is not there, or it is.
abbrev pub Tells : Bool → Event → ℕ → String → List Event → StoreOutcome → Type 0
Tells can_load e seq digest rows unverified = can_load ≡ false
Tells can_load e seq digest rows absent = (can_load ≡ true) × ¬ (IsStored e seq digest rows)
Tells can_load e seq digest rows present = (can_load ≡ true) × IsStored e seq digest rows

same_seq_eq : (a : Option ℕ) (n : ℕ) → same_seq a (some n) ≡ true → a ≡ some n
unfolding same_seq
same_seq_eq none n h = absurd (false≢true h)
same_seq_eq (some m) n h = ground arith

same_hash_eq : (a : Option String) (s : String) → same_hash a (some s) ≡ true → a ≡ some s
unfolding same_hash
same_hash_eq none s h = absurd (false≢true h)
same_hash_eq (some t) s h = ap some ((eq_iff t s).0 h)

later_IsStored :
    (e row : Event) (seq : ℕ) (digest : String) (rows : List Event)
    → IsStored e seq digest rows
    → IsStored e seq digest (row ∷ rows)
later_IsStored e row seq digest rows s = record {
  row = s.row;
  there = inr s.there;
  proposal = s.proposal;
  version = s.version;
  number = s.number;
  hash = s.hash;
}

has_landed-IsStored :
    (e : Event) (seq : ℕ) (digest : String) (rows : List Event)
    → has_landed (stored_event e seq digest) (history e.proposal_id rows) ≡ true
    → IsStored e seq digest rows
unfolding has_landed history
has_landed-IsStored e seq digest [] h = absurd (false≢true h)
has_landed-IsStored e seq digest (row ∷ rest) h =
    let later = has_landed-IsStored e seq digest rest in
    elim (Bool-cases (has_landed (stored_event e seq digest) (history e.proposal_id rest))) [
      | inl found ↦ later_IsStored e row seq digest rest (later found)
      | inr missing ↦ record {
        row = row;
        there = inl refl;
        proposal = (eq_iff row.proposal_id e.proposal_id).0 (ground arith);
        version = ground arith;
        number = same_seq_eq row.audit_seq seq (ground arith);
        hash = same_hash_eq row.audit_hash digest (ground arith);
      }
    ]

Has-has_landed :
    (e : Event) (seq : ℕ) (digest : String) (rows : List Event) (row : Event)
    → Has row rows
    → row.proposal_id ≡ e.proposal_id
    → row.version ≡ e.version
    → row.audit_seq ≡ some seq
    → row.audit_hash ≡ some digest
    → has_landed (stored_event e seq digest) (history e.proposal_id rows) ≡ true
unfolding has_landed history same_seq same_hash
Has-has_landed e seq digest [] row there p v n d = absurd there
Has-has_landed e seq digest (x ∷ rest) row (inl here) p v n d =
    let p' : x.proposal_id ≡ e.proposal_id = ap (λ (y : Event). y.proposal_id) (sym here) ∙ p in
    let v' : x.version ≡ e.version = ap (λ (y : Event). y.version) (sym here) ∙ v in
    let n' : x.audit_seq ≡ some seq = ap (λ (y : Event). y.audit_seq) (sym here) ∙ n in
    let d' : x.audit_hash ≡ some digest = ap (λ (y : Event). y.audit_hash) (sym here) ∙ d in
    let mine : str_eq x.proposal_id e.proposal_id ≡ true =
      (eq_iff x.proposal_id e.proposal_id).1 p' in
    rw mine (rw v' (rw n' (rw d' (ground (arith, eq_refl digest)))))
Has-has_landed e seq digest (x ∷ rest) row (inr there) p v n d =
    ground (arith, Has-has_landed e seq digest rest row there p v n d)

store_outcome-Tells :
    (can_load : Bool) (e : Event) (seq : ℕ) (digest : String) (rows : List Event)
    → Tells can_load e seq digest rows (store_outcome can_load (stored_event e seq digest) rows)
unfolding store_outcome
store_outcome-Tells false e seq digest rows = refl
store_outcome-Tells true e seq digest rows =
    elim (Bool-cases (has_landed (stored_event e seq digest) (history e.proposal_id rows))) [
      | inl found ↦ rw found (refl, has_landed-IsStored e seq digest rows found)
      | inr missing ↦ rw missing (
        refl,
        λ (s : IsStored e seq digest rows). false≢true (
            sym missing
            ∙ Has-has_landed e seq digest rows s.row s.there s.proposal s.version s.number s.hash),
      )
    ]

-- How `_commit` ends for an event with this payload, by its exception and the disk that it leaves.
-- The transition happened, with its record; or the log gave no usable reference, and nothing was
-- stored; or an abort record follows its record, with what is known of the store; or the call for
-- the abort record raised, and then that record stands in the log or does not.
pub data Ended (ports : Ports) (e : Event) (payload : Json) (before : Disk)
    : Option SharpError → Disk → Type 0 where
  happened :
      {d : Disk} (seq : ℕ) (digest : String)
      → IsStored e seq digest d.rows
      → d.log ≡ entry_of e payload ∷ before.log
      → Ended ports e payload before none d
  unaudited :
      {d : Disk}
      → d.rows ≡ before.rows
      → (d.log ≡ before.log) ⊎ (d.log ≡ entry_of e payload ∷ before.log)
      → Ended ports e payload before (some audit_failure) d
  aborted :
      {d : Disk} (seq : ℕ) (digest name : String) (outcome : StoreOutcome)
      → outcome ≢ present
      → Tells ports.can_load e seq digest d.rows outcome
      → d.log
        ≡ abort_entry (stored_event e seq digest) payload seq digest name outcome
          ∷ entry_of e payload
          ∷ before.log
      → Ended ports e payload before (some (store_error name)) d
  orphaned :
      {d : Disk} (seq : ℕ) (digest name : String) (outcome : StoreOutcome)
      → outcome ≢ present
      → Tells ports.can_load e seq digest d.rows outcome
      → (d.log ≡ entry_of e payload ∷ before.log)
        ⊎ (d.log
            ≡ abort_entry (stored_event e seq digest) payload seq digest name outcome
              ∷ entry_of e payload
              ∷ before.log)
      → Ended ports e payload before (some abort_not_recorded) d

module _ (lib : Library) (ports : Ports) (e : Event) (expected : ℕ) (payload : Json)
    (before : Disk) where
  record_abort-Ended :
      (reply : AuditReply) (seq : ℕ) (digest name : String) (outcome : StoreOutcome) (d : Disk)
      → outcome ≢ present
      → Tells ports.can_load e seq digest d.rows outcome
      → d.log ≡ entry_of e payload ∷ before.log
      → let (failure, d') =
          record_abort reply (stored_event e seq digest) payload seq digest name outcome d in
        Ended ports e payload before failure d'
  unfolding record_abort
  record_abort-Ended (committed s h) seq digest name outcome d failed known logged =
      aborted seq digest name outcome failed known (
        ap (λ l. abort_entry (stored_event e seq digest) payload seq digest name outcome ∷ l)
          logged)
  record_abort-Ended recorded_then_raised seq digest name outcome d failed known logged =
      orphaned seq digest name outcome failed known (
        inr (
          ap (λ l. abort_entry (stored_event e seq digest) payload seq digest name outcome ∷ l)
            logged))
  record_abort-Ended not_recorded seq digest name outcome d failed known logged =
      orphaned seq digest name outcome failed known (inl logged)

  after_failure-Ended :
      (outcome : StoreOutcome) (seq : ℕ) (digest name : String) (d : Disk)
      → Tells ports.can_load e seq digest d.rows outcome
      → d.log ≡ entry_of e payload ∷ before.log
      → let (failure, d') =
          after_failure outcome ports.abort_reply
            (stored_event e seq digest)
            payload
            seq
            digest
            name
            d in
        Ended ports e payload before failure d'
  unfolding after_failure
  after_failure-Ended present seq digest name d known logged = happened seq digest known.1 logged
  after_failure-Ended absent seq digest name d known logged =
      record_abort-Ended ports.abort_reply seq digest name absent d (λ h. ground arith) known logged
  after_failure-Ended unverified seq digest name d known logged =
      record_abort-Ended ports.abort_reply seq digest name unverified d (λ h. ground arith) known
        logged

  after_append-Ended :
      (failure : Option String) (seq : ℕ) (digest : String) (d : Disk)
      → (failure ≡ none → IsStored e seq digest d.rows)
      → d.log ≡ entry_of e payload ∷ before.log
      → let (why, d') =
          after_append lib ports failure (stored_event e seq digest) payload seq digest d in
        Ended ports e payload before why d'
  unfolding after_append
  after_append-Ended none seq digest d there logged = happened seq digest (there refl) logged
  after_append-Ended (some name) seq digest d there logged =
      after_failure-Ended (store_outcome ports.can_load (stored_event e seq digest) d.rows) seq
        digest name d (store_outcome-Tells ports.can_load e seq digest d.rows) logged

  append_row-IsStored :
      (reply : StoreReply) (seq : ℕ) (digest : String) (rows : List Event)
      → (append_row reply (stored_event e seq digest) expected rows).0 ≡ none
      → IsStored e seq digest (append_row reply (stored_event e seq digest) expected rows).1
  unfolding append_row
  append_row-IsStored honest seq digest rows acknowledged =
      elim (Bool-cases (is_next (stored_event e seq digest) expected rows)) [
        | inl next ↦ rw next (
            has_landed-IsStored e seq digest (append rows (stored_event e seq digest ∷ []))
              (has_landed-append e seq digest rows))
        | inr other ↦ absurd (ground arith)
      ]
  append_row-IsStored (lands name) seq digest rows acknowledged = absurd (ground arith)
  append_row-IsStored (drops name) seq digest rows acknowledged = absurd (ground arith)

  audit_step-Ended :
      (reply : AuditReply)
      → let (why, d) = audit_step lib ports reply e payload expected before in
        Ended ports e payload before why d
  unfolding audit_step store_step
  audit_step-Ended not_recorded = unaudited refl (inl refl)
  audit_step-Ended recorded_then_raised = unaudited refl (inr refl)
  audit_step-Ended (committed none digest) = unaudited refl (inr refl)
  audit_step-Ended (committed (some seq) none) = unaudited refl (inr refl)
  audit_step-Ended (committed (some seq) (some digest)) =
      after_append-Ended
        (append_row ports.store_reply (stored_event e seq digest) expected before.rows).0 seq digest
        _ (append_row-IsStored ports.store_reply seq digest before.rows) refl

  -- For an event with a payload, whatever the audit log and the store answer, `_commit` ends in one
  -- of four ways: a row with the event's version and audit reference is stored and its record was
  -- written; the log gave no usable reference and no row was added; an abort record follows its
  -- record, and says that no such row is stored, or that the store could not be read; or the call
  -- for that abort record raised, which the exception tells.
  pub commit-Ended :
      transition_payload lib e ≡ some payload
      → Ended ports e payload before
          (commit lib ports e expected before).0
          (commit lib ports e expected before).1
  unfolding commit payload_step
  commit-Ended made =
      subst
        (λ (o : Option Json).
          Ended ports e payload before (payload_step lib ports o e expected before).0
            (payload_step lib ports o e expected before).1)
        (sym made) (audit_step-Ended ports.audit_reply)
