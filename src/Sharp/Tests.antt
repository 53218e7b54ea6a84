-- ===== src/Sharp/Tests.antt =====
-- A whole promotion at concrete values: its history, the audit log behind it, and the commands.
use Prim.Native.String.{◌++◌}
use mathlib.Core.List.{◌++◌ as append}
use agentic_fintech_ecosyste.Prelude.{
  ℕ, String, Bool, true, false, Option, none, some, List, [], ◌∷◌, ◌≡◌, refl, str_eq, ◌==◌, ◌&&◌,
  if◌then◌else◌, contains, is_blank, map,
}
use agentic_fintech_ecosyste.Sharp.Json.{
  Json, null, number, text, array, object, Items, no_items, item, Members, no_members, member,
  Library, get, tuple_of, has_nul,
}
use agentic_fintech_ecosyste.Sharp.Models.{
  Stage, draft, compliance, legal, backtest, risk, canary, promoted, Proposal, Event, AuditEntry,
  Approval, ProposalRecord, ok, normalise_identity, is_valid_text, is_valid_proposal,
  transition_payload,
}
use agentic_fintech_ecosyste.Sharp.Stored.{stored_detail, stored_proposal, approval}
use agentic_fintech_ecosyste.Sharp.Fold.{
  AuditLookup, signed, fold_approved, fold_event, fold_rest, seqs_of, is_matching, check_found,
  verify_audit_records, conclude, is_first, fold,
}
use agentic_fintech_ecosyste.Sharp.Reached.{IsAccepted, fold-IsAccepted}
use agentic_fintech_ecosyste.Sharp.Promotion.{fold_promoted}
use agentic_fintech_ecosyste.Sharp.Backed.{IsAudited, fold-IsAudited}
use agentic_fintech_ecosyste.Sharp.Gate.{Disk, Ports, committed, drops, history, commit}
use agentic_fintech_ecosyste.Sharp.Requests.{get_record, record_of, approve}
use agentic_fintech_ecosyste.Sharp.Commit.{Ended, commit-Ended}
use agentic_fintech_ecosyste.Sharp.Closed.{
  Command, approves, rejects, run_commands, run_commands-closed,
}
use agentic_fintech_ecosyste.Sharp.Guards.{IsApproved, approve-IsApproved}

abbrev mutual
  equal : Json → Json → Bool
  equal null null = true
  equal (number a) (number b) = a == b
  equal (text a) (text b) = str_eq a b
  equal (array xs) (array ys) = equal_items xs ys
  equal (object ms) (object ns) = equal_members ms ns
  equal _ _ = false

  equal_items : Items → Items → Bool
  equal_items no_items no_items = true
  equal_items (item v xs) (item w ys) = equal v w && equal_items xs ys
  equal_items _ _ = false

  equal_members : Members → Members → Bool
  equal_members no_members no_members = true
  equal_members (member k v ms) (member l w ns) = str_eq k l && equal v w && equal_members ms ns
  equal_members _ _ = false

abbrev proposal : Proposal
proposal = record {
  proposal_id = "p1";
  proposer_id = "zoe";
  description = "d";
  proposed_change = "c";
  rationale = "r";
  evidence_refs = "signal:1" ∷ [];
}

abbrev proposal_json : Json
proposal_json = object (
    member "proposal_id" (text "p1") (
      member "proposer_id" (text "zoe") (
        member "description" (text "d") (
          member "proposed_change" (text "c") (
            member "rationale" (text "r")
              (member "evidence_refs" (array (item (text "signal:1") no_items)) no_members))))))

-- Two texts are read: the proposal's, and an empty object's.
abbrev loads : String → Option Json
loads s = if str_eq s "p" then some proposal_json else some (object no_members)

abbrev pub lib : Library
lib = record {
  canonical = λ s. s;
  loads = loads;
  dumps = λ v. "{}";
  show = λ v. "";
  equal = equal;
  utc = λ t. "T";
}

abbrev event : ℕ → String → Option Stage → Stage → String → String → Event
event version kind from to actor detail = record {
  proposal_id = "p1";
  version = version;
  kind = kind;
  from_state = from;
  to_state = to;
  actor = actor;
  occurred_at = 7;
  detail_json = detail;
  audit_seq = some version;
  audit_hash = some "h";
}

-- All but the last approval.
abbrev at_canary : List Event
at_canary =
    event 1 "submitted" none draft "zoe" "p"
    ∷ event 2 "approved" (some draft) compliance "ann" "{}"
    ∷ event 3 "approved" (some compliance) legal "ben" "{}"
    ∷ event 4 "approved" (some legal) backtest "ci" "{}"
    ∷ event 5 "approved" (some backtest) risk "dan" "{}"
    ∷ event 6 "approved" (some risk) canary "eve" "{}"
    ∷ []

abbrev pub promotion : List Event
promotion = append at_canary (event 7 "approved" (some canary) promoted "fay" "{}" ∷ [])

-- The audit log's record of an event.
abbrev entry_for : Event → Option Json → Option AuditEntry
entry_for e none = none
entry_for e (some payload) = some (record {
  seq = e.version;
  hash = "h";
  event_type = "sharp." ++ e.kind;
  actor = e.actor;
  payload = payload;
})

abbrev find : List Event → ℕ → Option AuditEntry
find [] n = none
find (e ∷ rest) n =
    let later = find rest n in
    if e.version == n then entry_for e (transition_payload lib e) else later

abbrev pub lookup : AuditLookup
lookup seqs = some (find promotion)

abbrev signed_by : Stage → String → Approval
signed_by stage who = record {
  stage = stage;
  approver_id = who;
  occurred_at = 7;
  evidence_refs = [];
  note = "";
}

abbrev result : ProposalRecord
result = record {
  proposal = proposal;
  state = promoted;
  version = 7;
  approvals =
      signed_by compliance "ann"
      ∷ signed_by legal "ben"
      ∷ signed_by backtest "ci"
      ∷ signed_by risk "dan"
      ∷ signed_by canary "eve"
      ∷ signed_by promoted "fay"
      ∷ [];
  rejected_by = none;
  rejection_reason = none;
}

promotion_folds : fold lib promotion lookup ≡ ok result
unfolding fold fold_rest fold_event fold_approved signed approval stored_detail stored_proposal
    conclude verify_audit_records seqs_of check_found is_matching is_first normalise_identity
    has_nul is_valid_text is_valid_proposal transition_payload get tuple_of is_blank contains
promotion_folds = refl

fold-IsAccepted_example : IsAccepted lib result
fold-IsAccepted_example = fold-IsAccepted lib promotion lookup result promotion_folds

fold_promoted_example :
    map (λ (a : Approval). a.stage) result.approvals
    ≡ compliance ∷ legal ∷ backtest ∷ risk ∷ canary ∷ promoted ∷ []
fold_promoted_example = fold_promoted lib promotion lookup result promotion_folds refl

fold-IsAudited_example : IsAudited lib promotion lookup
fold-IsAudited_example = fold-IsAudited lib promotion lookup result promotion_folds

-- A store that fails without storing, and an audit log that answers.
abbrev ports : Ports
ports = record {
  now = 7;
  lookup = lookup;
  lookup_after = lookup;
  authorize = λ who stage. ok true;
  audit_reply = committed (some 8) (some "h8");
  store_reply = drops "OperationalError";
  can_load = true;
  abort_reply = committed (some 9) (some "h9");
}

abbrev disk : Disk
disk = record { log = []; rows = promotion }

abbrev open_disk : Disk
open_disk = record { log = []; rows = at_canary }

abbrev retry : Event
retry = event 8 "approved" (some canary) promoted "gus" "{}"

abbrev payload : Json
payload = object (
    member "proposal_id" (text "p1") (
      member "version" (number 8) (
        member "kind" (text "approved") (
          member "from_state" (text "CANARY") (
            member "to_state" (text "PROMOTED") (
              member "occurred_at" (text "T") (member "detail" (object no_members) no_members)))))))

retry_payload : transition_payload lib retry ≡ some payload
unfolding transition_payload
retry_payload = refl

commit-Ended_example :
    Ended ports retry payload disk
      (commit lib ports retry 7 disk).0
      (commit lib ports retry 7 disk).1
commit-Ended_example = commit-Ended lib ports retry 7 payload disk retry_payload

approve-IsApproved_example :
    IsApproved lib ports "p1" "fay" promoted [] "" open_disk
      (approve lib ports "p1" "fay" promoted [] "" open_disk).1
approve-IsApproved_example = approve-IsApproved lib ports "p1" "fay" promoted [] "" open_disk

stored_promotion : get_record lib lookup "p1" promotion ≡ ok result
unfolding get_record record_of history
stored_promotion = promotion_folds

abbrev late : List Command
late = approves ports "p1" "gus" promoted [] "" ∷ rejects ports "p1" "gus" "late" ∷ []

run_commands-closed_example :
    history "p1" (run_commands lib late disk).rows ≡ history "p1" disk.rows
run_commands-closed_example =
    run_commands-closed lib late "p1" lookup result disk stored_promotion refl

abbrev roles : List (Stage × List String)
roles = (compliance, "ann" ∷ []) ∷ (legal, "ben" ∷ []) ∷ []
