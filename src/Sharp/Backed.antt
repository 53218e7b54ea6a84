-- ===== src/Sharp/Backed.antt =====
-- models.py of afe_sharp: every event of an accepted history is backed by a record of its own.
use Prim.Native.String.{◌++◌}
use agentic_fintech_ecosyste.Prelude.{
  ℕ, String, true, Option, none, some, List, [], ◌∷◌, ◌≡◌, inl, inr, arith, ap, eq_iff,
  Option-cases, All,
}
use agentic_fintech_ecosyste.Sharp.Json.{Json, Library}
use agentic_fintech_ecosyste.Sharp.Models.{
  Event, AuditEntry, ProposalRecord, ok, transition_payload,
}
use agentic_fintech_ecosyste.Sharp.Fold.{
  AuditLookup, hash_is, seqs_of, no_repeat, is_matching, check_found, verify_audit_records,
  conclude, fold,
}

-- An audit record that says what the event says.
pub record IsBacked (lib : Library) (found : ℕ → Option AuditEntry) (e : Event) : Type 0 where
  pub seq : ℕ
  pub entry : AuditEntry
  pub payload : Json
  pub named : e.audit_seq ≡ some seq
  pub exists : found seq ≡ some entry
  pub hash : e.audit_hash ≡ some entry.hash
  pub event_type : entry.event_type ≡ "sharp." ++ e.kind
  pub actor : entry.actor ≡ e.actor
  pub says : transition_payload lib e ≡ some payload
  pub same : lib.equal entry.payload payload ≡ true

hash_is_eq : (o : Option String) (digest : String) → hash_is o digest ≡ true → o ≡ some digest
hash_is_eq none digest h = ground arith
hash_is_eq (some h') digest h = ap some ((eq_iff h' digest).0 h)

module _ (lib : Library) (found : ℕ → Option AuditEntry) where
  is_matching_lem :
      (e : Event) (entry : AuditEntry) (payload : Json)
      → is_matching lib e entry payload ≡ true
      → (e.audit_hash ≡ some entry.hash)
        × (entry.event_type ≡ "sharp." ++ e.kind)
        × (entry.actor ≡ e.actor)
        × (lib.equal entry.payload payload ≡ true)
  unfolding is_matching
  is_matching_lem e entry payload h = (
    hash_is_eq e.audit_hash entry.hash (ground arith),
    (eq_iff entry.event_type ("sharp." ++ e.kind)).0 (ground arith),
    (eq_iff entry.actor e.actor).0 (ground arith),
    ground arith,
  )

  check_found-cons :
      (e : Event) (rest : List Event)
      → check_found lib (e ∷ rest) found ≡ none
      → IsBacked lib found e × (check_found lib rest found ≡ none)
  unfolding check_found
  check_found-cons e rest h = elim (Option-cases e.audit_seq) [
    | inl unnamed ↦ absurd (ground arith)
    | inr (seq, named) ↦ elim (Option-cases (found seq)) [
      | inl absent ↦ absurd (ground arith)
      | inr (entry, exists) ↦ elim (Option-cases (transition_payload lib e)) [
        | inl unreadable ↦ absurd (ground arith)
        | inr (payload, says) ↦
            let matched : is_matching lib e entry payload ≡ true = ground arith in
            let (hash, event_type, actor, same) = is_matching_lem e entry payload matched in
            (
              record {
                seq = seq;
                entry = entry;
                payload = payload;
                named = named;
                exists = exists;
                hash = hash;
                event_type = event_type;
                actor = actor;
                says = says;
                same = same;
              },
              ground arith,
            )
      ]
    ]
  ]

  check_found-IsBacked :
      (events : List Event) → check_found lib events found ≡ none → All (IsBacked lib found) events
  check_found-IsBacked [] h = tt
  check_found-IsBacked (e ∷ rest) h =
      let (backed, more) = check_found-cons e rest h in (backed, check_found-IsBacked rest more)

-- What the audit check establishes for a history.
pub record IsAudited (lib : Library) (events : List Event) (audit : AuditLookup) : Type 0 where
  pub seqs : List ℕ
  pub found : ℕ → Option AuditEntry
  pub named : seqs_of events ≡ some seqs
  pub no_sharing : no_repeat seqs ≡ true
  pub answered : audit seqs ≡ some found
  pub backed : All (IsBacked lib found) events

verify_audit_records-IsAudited :
    (lib : Library) (events : List Event) (audit : AuditLookup)
    → verify_audit_records lib events audit ≡ none
    → IsAudited lib events audit
unfolding verify_audit_records
verify_audit_records-IsAudited lib events audit h = elim (Option-cases (seqs_of events)) [
  | inl unnamed ↦ absurd (ground arith)
  | inr (seqs, named) ↦ elim (Option-cases (audit seqs)) [
    | inl silent ↦ absurd (ground arith)
    | inr (found, answered) ↦ record {
      seqs = seqs;
      found = found;
      named = named;
      no_sharing = ground arith;
      answered = answered;
      backed = check_found-IsBacked lib found events (ground arith);
    }
  ]
]

fold-verified :
    (lib : Library) (events : List Event) (audit : AuditLookup) (r : ProposalRecord)
    → fold lib events audit ≡ ok r
    → verify_audit_records lib events audit ≡ none
unfolding fold conclude
fold-verified lib [] audit r h = absurd (ground arith)
fold-verified lib (e ∷ rest) audit r h = ground arith

-- Every event of a history that `fold` accepts names an audit record, no two of them the same,
-- and the record that the log has under that name has the event's hash, type, actor and payload.
pub fold-IsAudited :
    (lib : Library) (events : List Event) (audit : AuditLookup) (r : ProposalRecord)
    → fold lib events audit ≡ ok r
    → IsAudited lib events audit
fold-IsAudited lib events audit r h =
    verify_audit_records-IsAudited lib events audit (fold-verified lib events audit r h)
