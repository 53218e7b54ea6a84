-- ===== src/Sharp/Gate.antt =====
-- gate.py and memory_store.py of afe_sharp: each transition is written to the audit log, then
-- appended to the store. What the audit log, the store, the clock and the authorizer answer in one
-- call is an argument, failures included.
use Prim.Native.String.{◌++◌}
use mathlib.Core.List.{◌++◌ as append}
use agentic_fintech_ecosyste.Prelude.{
  ℕ, ◌+◌, String, Bool, true, false, Option, none, some, List, [], ◌∷◌, str_eq, ◌==◌, ◌&&◌, ◌||◌,
  length, if◌then◌else◌,
}
use agentic_fintech_ecosyste.Sharp.Json.{
  Json, number, text, object, Members, no_members, member, Library,
}
use agentic_fintech_ecosyste.Sharp.Models.{
  Stage, Event, SharpError, concurrency, audit_failure, abort_not_recorded, value_error,
  other_error, Result, transition_payload,
}
use agentic_fintech_ecosyste.Sharp.Fold.{AuditLookup}

-- A record of the audit log, as the gate wrote it.
pub record Written : Type 0 where
  pub event_type : String
  pub actor : String
  pub payload : Json

-- The audit log, latest first, and the stored transitions of all proposals, in order.
pub record Disk : Type 0 where
  pub log : List Written
  pub rows : List Event

-- `AuditSink.record`: the record is committed, with what its receipt says; or it is committed and the
-- call raises all the same; or it is not recorded.
pub data AuditReply : Type 0 where
  committed : Option ℕ → Option String → AuditReply
  recorded_then_raised : AuditReply
  not_recorded : AuditReply

-- The store: as `InMemoryProposalStore` does, or with an exception of this name, after the row
-- was stored or without it.
pub data StoreReply : Type 0 where
  honest : StoreReply
  lands : String → StoreReply
  drops : String → StoreReply

pub record Ports : Type 0 where
  pub now : ℕ
  pub lookup : AuditLookup
  pub lookup_after : AuditLookup
  pub authorize : String → Stage → Result Bool
  pub audit_reply : AuditReply
  pub store_reply : StoreReply
  pub can_load : Bool
  pub abort_reply : AuditReply

-- `InMemoryProposalStore.load`
unfoldable pub history : String → List Event → List Event
history proposal_id [] = []
history proposal_id (e ∷ rest) =
    let more = history proposal_id rest in
    if str_eq e.proposal_id proposal_id then e ∷ more else more

-- The condition of `InMemoryProposalStore.append`.
unfoldable pub is_next : Event → ℕ → List Event → Bool
is_next e expected rows =
    length (history e.proposal_id rows) == expected && e.version == expected + 1

-- The rows after an `append`, and the exception that it raises, by name.
unfoldable pub append_row : StoreReply → Event → ℕ → List Event → Option String × List Event
append_row honest e expected rows =
    if is_next e expected rows
    then (none, append rows (e ∷ []))
    else (some "ConcurrencyError", rows)
append_row (lands name) e expected rows =
    (some name, if is_next e expected rows then append rows (e ∷ []) else rows)
append_row (drops name) e expected rows = (some name, rows)

unfoldable pub same_seq : Option ℕ → Option ℕ → Bool
same_seq (some a) (some b) = a == b
same_seq none none = true
same_seq _ _ = false

unfoldable pub same_hash : Option String → Option String → Bool
same_hash (some a) (some b) = str_eq a b
same_hash none none = true
same_hash _ _ = false

-- One of the events has the version and the audit reference of `stored`.
unfoldable pub has_landed : Event → List Event → Bool
unfolding same_seq same_hash
has_landed stored [] = false
has_landed stored (e ∷ rest) =
    (e.version == stored.version
      && same_seq e.audit_seq stored.audit_seq
      && same_hash e.audit_hash stored.audit_hash)
    || has_landed stored rest

pub data StoreOutcome : Type 0 where
  present absent unverified : StoreOutcome

abbrev outcome_value : StoreOutcome → String
outcome_value present = "present"
outcome_value absent = "absent"
outcome_value unverified = "unverified"

-- `_store_outcome`
unfoldable pub store_outcome : Bool → Event → List Event → StoreOutcome
store_outcome can_load stored rows =
    if can_load
    then if has_landed stored (history stored.proposal_id rows) then present else absent
    else unverified

-- `{**payload, ...}` with the four names of an abort.
extended : Members → Members → Members
extended no_members more = more
extended (member k v rest) more = member k v (extended rest more)

abbrev members_of : Json → Members
members_of (object ms) = ms
members_of _ = no_members

unfoldable pub abort_entry : Event → Json → ℕ → String → String → StoreOutcome → Written
unfolding extended
abort_entry stored payload seq digest name outcome = record {
  event_type = "sharp.transition_aborted";
  actor = stored.actor;
  payload = object (
      extended (members_of payload) (
        member "audit_seq" (number seq) (
          member "audit_hash" (text digest) (
            member "reason" (text name)
              (member "store_outcome" (text (outcome_value outcome)) no_members)))));
}

-- The class of the store's exception.
abbrev pub store_error : String → SharpError
store_error name = if str_eq name "ConcurrencyError" then concurrency else other_error

-- `_record_abort`, and the exception that leaves `_commit`.
unfoldable pub record_abort :
    AuditReply → Event → Json → ℕ → String → String → StoreOutcome → Disk → Option SharpError × Disk
record_abort (committed _ _) stored payload seq digest name outcome disk = (
  some (store_error name),
  record disk { log = abort_entry stored payload seq digest name outcome ∷ disk.log },
)
record_abort recorded_then_raised stored payload seq digest name outcome disk = (
  some abort_not_recorded,
  record disk { log = abort_entry stored payload seq digest name outcome ∷ disk.log },
)
record_abort not_recorded stored payload seq digest name outcome disk =
    (some abort_not_recorded, disk)

-- The `except` of the store's `append`.
unfoldable pub after_failure :
    StoreOutcome → AuditReply → Event → Json → ℕ → String → String → Disk → Option SharpError × Disk
after_failure present reply stored payload seq digest name disk = (none, disk)
after_failure absent reply stored payload seq digest name disk =
    record_abort reply stored payload seq digest name absent disk
after_failure unverified reply stored payload seq digest name disk =
    record_abort reply stored payload seq digest name unverified disk

-- The event with its audit reference.
abbrev pub stored_event : Event → ℕ → String → Event
stored_event e seq digest = record e { audit_seq = some seq; audit_hash = some digest }

-- What the first step of `_commit` writes to the log.
unfoldable pub entry_of : Event → Json → Written
entry_of e payload = record { event_type = "sharp." ++ e.kind; actor = e.actor; payload = payload }

module _ (lib : Library) (ports : Ports) where
  -- What follows `append`, by the exception that it raised.
  unfoldable pub after_append :
      Option String → Event → Json → ℕ → String → Disk → Option SharpError × Disk
  after_append none stored payload seq digest disk = (none, disk)
  after_append (some name) stored payload seq digest disk =
      after_failure (store_outcome ports.can_load stored disk.rows) ports.abort_reply stored payload
        seq digest name disk

  -- The second step of `_commit`.
  unfoldable pub store_step : Event → Json → ℕ → ℕ → String → Disk → Option SharpError × Disk
  store_step e payload expected seq digest disk =
      let (failure, rows) =
        append_row ports.store_reply (stored_event e seq digest) expected disk.rows in
      after_append failure (stored_event e seq digest) payload seq digest
        (record disk { rows = rows })

  -- `_commit` once the payload is made, by the reply of the audit log.
  unfoldable pub audit_step : AuditReply → Event → Json → ℕ → Disk → Option SharpError × Disk
  audit_step (committed (some seq) (some digest)) e payload expected disk =
      store_step e payload expected seq digest (record disk { log = entry_of e payload ∷ disk.log })
  audit_step (committed _ _) e payload expected disk =
      (some audit_failure, record disk { log = entry_of e payload ∷ disk.log })
  audit_step recorded_then_raised e payload expected disk =
      (some audit_failure, record disk { log = entry_of e payload ∷ disk.log })
  audit_step not_recorded e payload expected disk = (some audit_failure, disk)

  -- `_commit`, by the payload that it made.
  unfoldable pub payload_step : Option Json → Event → ℕ → Disk → Option SharpError × Disk
  payload_step none e expected disk = (some value_error, disk)
  payload_step (some payload) e expected disk = audit_step ports.audit_reply e payload expected disk

  -- `_commit`; `none` is its return.
  unfoldable pub commit : Event → ℕ → Disk → Option SharpError × Disk
  commit e expected disk = payload_step (transition_payload lib e) e expected disk
