-- ===== src/Sharp/Stored.antt =====
-- models.py of afe_sharp: what `fold` reads of a stored row.
use agentic_fintech_ecosyste.Prelude.{
  String, Bool, true, Option, none, some, List, [], ◌∷◌, str_eq, ◌||◌, ◌&&◌, is_blank,
  if◌then◌else◌,
}
use agentic_fintech_ecosyste.Sharp.Json.{
  Json, text, object, Members, no_members, member, Library, get, tuple_of,
}
use agentic_fintech_ecosyste.Sharp.Models.{
  Proposal, is_valid_proposal, Event, Approval, store_failure, type_error, Result, ok, err,
}

members_of : Option Json → Option Members
members_of (some (object ms)) = some ms
members_of _ = none

-- `_stored_detail`; `none` is the `StoreError`.
unfoldable pub stored_detail : Library → Event → Option Members
unfolding members_of
stored_detail lib e = members_of (lib.loads e.detail_json)

text_of : Option Json → Option String
text_of (some (text s)) = some s
text_of _ = none

texts_of : List Json → Option (List String)
texts_of [] = some []
texts_of (v ∷ rest) = elim (text_of (some v)) [
  | none ↦ none
  | some s ↦ elim (texts_of rest) [ none ↦ none | some more ↦ some (s ∷ more) ]
]

refs_of : Option Json → Option (List String)
refs_of none = none
refs_of (some v) = elim (tuple_of v) [ none ↦ none | some items ↦ texts_of items ]

-- The names of the dataclass, and no other, may be keys.
only_fields : Members → Bool
only_fields no_members = true
only_fields (member k v rest) =
    (str_eq k "proposal_id"
      || str_eq k "proposer_id"
      || str_eq k "description"
      || str_eq k "proposed_change"
      || str_eq k "rationale"
      || str_eq k "evidence_refs")
    && only_fields rest

-- The proposal with these field values, each of which must be there and be a text.
build :
    Option String
    → Option String
    → Option String
    → Option String
    → Option String
    → Option (List String)
    → Option Proposal
build (some i) (some p) (some d) (some c) (some r) (some refs) = some (record {
  proposal_id = i;
  proposer_id = p;
  description = d;
  proposed_change = c;
  rationale = r;
  evidence_refs = refs;
})
build _ _ _ _ _ _ = none

proposal_of : Members → Option Proposal
proposal_of ms =
    if only_fields ms
    then build (text_of (get "proposal_id" ms)) (text_of (get "proposer_id" ms))
        (text_of (get "description" ms)) (text_of (get "proposed_change" ms))
        (text_of (get "rationale" ms)) (refs_of (get "evidence_refs" ms))
    else none

-- `_stored_proposal`; `none` is the `StoreError`.
unfoldable pub stored_proposal : Library → Event → Option Proposal
unfolding proposal_of only_fields build text_of texts_of refs_of
stored_proposal lib first = elim (stored_detail lib first) [
  | none ↦ none
  | some ms ↦ elim (proposal_of ms) [
    | none ↦ none
    | some p ↦ if is_valid_proposal lib p && str_eq first.actor p.proposer_id then some p else none
  ]
]

note_of : Library → Option Json → String
note_of lib none = ""
note_of lib (some (text s)) = s
note_of lib (some v) = lib.show v

approval_of : Library → Event → Members → Option (List Json) → Result Approval
approval_of lib e ms none = err type_error
approval_of lib e ms (some refs) = ok (record {
  stage = e.to_state;
  approver_id = e.actor;
  occurred_at = e.occurred_at;
  evidence_refs = refs;
  note = note_of lib (get "note" ms);
})

evidence : Option Json → Option (List Json)
evidence none = some []
evidence (some v) = tuple_of v

-- `_approval`
unfoldable pub approval : Library → Event → Result Approval
unfolding approval_of evidence note_of
approval lib e = elim (stored_detail lib e) [
  | none ↦ err store_failure
  | some ms ↦ approval_of lib e ms (evidence (get "evidence_refs" ms))
]

reason_of : Option Members → Option String
reason_of none = none
reason_of (some ms) = elim (text_of (get "reason" ms)) [
  | none ↦ none
  | some why ↦ if is_blank why then none else some why
]

-- The reason of a stored rejection; `none` is the `StoreError`.
unfoldable pub stored_reason : Library → Event → Option String
unfolding reason_of text_of
stored_reason lib e = reason_of (stored_detail lib e)
