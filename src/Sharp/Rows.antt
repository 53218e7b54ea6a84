-- ===== src/Sharp/Rows.antt =====
-- gate.py of afe_sharp, `_commit`: which rows it adds, and what the log then holds.
use mathlib.Core.List.{◌++◌ as append}
use agentic_fintech_ecosyste.Prelude.{
  ℕ, String, Option, none, some, List, [], ◌∷◌, ◌≡◌, ◌⊎◌, inl, inr, refl, arith, ◌∙◌, Has,
}
use agentic_fintech_ecosyste.Sharp.Json.{Json, Library}
use agentic_fintech_ecosyste.Sharp.Models.{Event, transition_payload}
use agentic_fintech_ecosyste.Sharp.Gate.{
  Disk, Ports, Written, AuditReply, committed, recorded_then_raised, not_recorded, StoreReply,
  honest, lands, drops, StoreOutcome, present, absent, unverified, append_row, store_outcome,
  record_abort, after_failure, stored_event, entry_of, after_append, store_step, audit_step,
  payload_step, commit,
}

append_row_rows :
    (reply : StoreReply) (row : Event) (expected : ℕ) (rows : List Event)
    → ((append_row reply row expected rows).1 ≡ rows)
      ⊎ ((append_row reply row expected rows).1 ≡ append rows (row ∷ []))
unfolding append_row
append_row_rows honest row expected rows = ground arith
append_row_rows (lands name) row expected rows = ground arith
append_row_rows (drops name) row expected rows = inl refl

-- The steps after `append` leave the rows alone, and drop no record of the log.
abbrev IsKept : Written → Disk → Disk → Type 0
IsKept w before d = (d.rows ≡ before.rows) × Has w d.log

after_failure-IsKept :
    (w : Written) (outcome : StoreOutcome) (reply : AuditReply) (stored : Event) (payload : Json)
    (seq : ℕ) (digest name : String) (d : Disk)
    → Has w d.log
    → IsKept w d (after_failure outcome reply stored payload seq digest name d).1
unfolding after_failure record_abort
after_failure-IsKept w present reply stored payload seq digest name d h = (refl, h)
after_failure-IsKept w absent (committed s g) stored payload seq digest name d h = (refl, inr h)
after_failure-IsKept w absent recorded_then_raised stored payload seq digest name d h =
    (refl, inr h)
after_failure-IsKept w absent not_recorded stored payload seq digest name d h = (refl, h)
after_failure-IsKept w unverified (committed s g) stored payload seq digest name d h = (refl, inr h)
after_failure-IsKept w unverified recorded_then_raised stored payload seq digest name d h =
    (refl, inr h)
after_failure-IsKept w unverified not_recorded stored payload seq digest name d h = (refl, h)

module _ (lib : Library) (ports : Ports) where
  after_append-IsKept :
      (w : Written) (failure : Option String) (stored : Event) (payload : Json) (seq : ℕ)
      (digest : String) (d : Disk)
      → Has w d.log
      → IsKept w d (after_append lib ports failure stored payload seq digest d).1
  unfolding after_append
  after_append-IsKept w none stored payload seq digest d h = (refl, h)
  after_append-IsKept w (some name) stored payload seq digest d h =
      after_failure-IsKept w (store_outcome ports.can_load stored d.rows) ports.abort_reply stored
        payload seq digest name d h

  -- A row that was added: it is the event with a reference, and its record stands in the log.
  abbrev pub IsAdded : Event → Disk → Disk → Type 0
  IsAdded e before d =
      (payload : Json) × (seq : ℕ) × (digest : String) × (transition_payload lib e ≡ some payload)
      × (d.rows ≡ append before.rows (stored_event e seq digest ∷ []))
      × Has (entry_of e payload) d.log

  audit_step-IsAdded :
      (reply : AuditReply) (e : Event) (payload : Json) (expected : ℕ) (before : Disk)
      → transition_payload lib e ≡ some payload
      → let d = (audit_step lib ports reply e payload expected before).1 in
        (d.rows ≡ before.rows) ⊎ IsAdded e before d
  unfolding audit_step store_step
  audit_step-IsAdded recorded_then_raised e payload expected before made = inl refl
  audit_step-IsAdded not_recorded e payload expected before made = inl refl
  audit_step-IsAdded (committed none digest) e payload expected before made = inl refl
  audit_step-IsAdded (committed (some seq) none) e payload expected before made = inl refl
  audit_step-IsAdded (committed (some seq) (some digest)) e payload expected before made =
      let row = stored_event e seq digest in
      let (same, logged) =
        after_append-IsKept (entry_of e payload)
          (append_row ports.store_reply row expected before.rows).0 row payload seq digest
          (record {
            log = entry_of e payload ∷ before.log;
            rows = (append_row ports.store_reply row expected before.rows).1;
          })
          (inl refl) in
      elim (append_row_rows ports.store_reply row expected before.rows) [
        | inl kept ↦ inl (same ∙ kept)
        | inr added ↦ inr (payload, seq, digest, made, same ∙ added, logged)
      ]

  payload_step-IsAdded :
      (made : Option Json) (e : Event) (expected : ℕ) (before : Disk)
      → transition_payload lib e ≡ made
      → let d = (payload_step lib ports made e expected before).1 in
        (d.rows ≡ before.rows) ⊎ IsAdded e before d
  unfolding payload_step
  payload_step-IsAdded none e expected before made = inl refl
  payload_step-IsAdded (some payload) e expected before made =
      audit_step-IsAdded ports.audit_reply e payload expected before made

  -- A commit adds no row, or one: the event with an audit reference, and then the record of that
  -- transition stands in the audit log.
  pub commit-IsAdded :
      (e : Event) (expected : ℕ) (before : Disk)
      → ((commit lib ports e expected before).1.rows ≡ before.rows)
        ⊎ IsAdded e before (commit lib ports e expected before).1
  unfolding commit
  commit-IsAdded e expected before =
      payload_step-IsAdded (transition_payload lib e) e expected before refl
