-- ===== src/Audit.antt =====
-- verifier.py of agent-core/zone-c/audit-logger/afe_audit: the check of a hash chain. The hash of a
-- text, JSON, the canonical form and the format of a timestamp are arguments.
mod Tests
pub mod Linked
use agentic_fintech_ecosyste.Prelude.{
  ℕ, suc, String, Bool, true, false, Option, none, some, List, [], ◌∷◌, str_eq, ◌==◌, if◌then◌else◌,
}
use agentic_fintech_ecosyste.Sharp.Json.{Json, null, number, text, object, Members, get}

-- `show` is Python's `str`, of a missing value too; `equal` is its `==`.
pub record Format : Type 0 where
  pub hash_canonical : String → String
  pub loads : String → Option Json
  pub canonical_json : Members → Option String
  pub format_timestamp : ℕ → String
  pub equal : Json → Json → Bool
  pub show : Option Json → String

pub record Row : Type 0 where
  pub seq : ℕ
  pub occurred_at : ℕ
  pub event_type : String
  pub actor : String
  pub payload : Json
  pub canonical : String
  pub prev_hash : String
  pub hash : String

pub data Defect : Type 0 where
  hash_mismatch canonical_unparseable prev_hash_link_broken canonical_prev_hash_mismatch
        seq_mismatch event_type_mismatch actor_mismatch payload_mismatch timestamp_mismatch
        non_canonical_serialization seq_gap anchor_row_missing anchor_hash_mismatch :
      Defect

-- A defect, with what was expected and what was found.
pub record Found : Type 0 where
  pub defect : Defect
  pub expected : Option String
  pub actual : Option String

abbrev pub found : Defect → Option String → Option String → Found
found d e a = record { defect = d; expected = e; actual = a }

abbrev document : Option Json → Option Members
document (some (object ms)) = some ms
document _ = none

module _ (f : Format) where
  agrees : Option Json → Json → Bool
  agrees none column = f.equal null column
  agrees (some v) column = f.equal v column

  -- The loop over the checks: a defect, the value in the text, the value in the column.
  unfoldable pub first_mismatch : List (Defect × Option Json × Json) → Option Found
  unfolding agrees
  first_mismatch [] = none
  first_mismatch ((d, in_canonical, in_column) ∷ rest) =
      let later = first_mismatch rest in
      if agrees in_canonical in_column
      then later
      else some (found d (some (f.show in_canonical)) (some (f.show (some in_column))))

  abbrev checks : Members → Row → List (Defect × Option Json × Json)
  checks doc row =
      (canonical_prev_hash_mismatch, get "prev_hash" doc, text row.prev_hash)
      ∷ (seq_mismatch, get "seq" doc, number row.seq)
      ∷ (event_type_mismatch, get "event_type" doc, text row.event_type)
      ∷ (actor_mismatch, get "actor" doc, text row.actor)
      ∷ (payload_mismatch, get "payload" doc, row.payload)
      ∷ (timestamp_mismatch, get "occurred_at" doc, text (f.format_timestamp row.occurred_at))
      ∷ []

  is_text : Option String → String → Bool
  is_text none s = false
  is_text (some t) s = str_eq t s

  -- The checks of a parsed row, after its link.
  unfoldable pub document_defect : Members → Row → Option Found
  unfolding is_text
  document_defect doc row = elim (first_mismatch (checks doc row)) [
    | some defect ↦ some defect
    | none ↦
        if is_text (f.canonical_json doc) row.canonical
        then none
        else some (found non_canonical_serialization none none)
  ]

  unfoldable pub row_defect : Row → String → Option Found
  row_defect row expected_prev_hash =
      if str_eq row.hash (f.hash_canonical row.canonical)
      then elim (document (f.loads row.canonical)) [
        | none ↦ some (found canonical_unparseable none none)
        | some doc ↦
            if str_eq row.prev_hash expected_prev_hash
            then document_defect doc row
            else some (found prev_hash_link_broken (some expected_prev_hash) (some row.prev_hash))
      ]
      else some (found hash_mismatch (some (f.hash_canonical row.canonical)) (some row.hash))

  -- `VerificationResult`: the first break, if any, with the number of its row, and the last good
  -- row.
  pub record VerificationResult : Type 0 where
    pub ok : Bool
    pub rows_checked : ℕ
    pub first_break : Option (ℕ × Found)
    pub head_seq : ℕ
    pub head_hash : String

  -- `_walk`, from the predecessor's number and hash; `checked` rows were good so far.
  unfoldable pub walk : List Row → ℕ → String → ℕ → VerificationResult
  walk [] p_seq p_hash checked = record {
    ok = true;
    rows_checked = checked;
    first_break = none;
    head_seq = p_seq;
    head_hash = p_hash;
  }
  walk (row ∷ rest) p_seq p_hash checked =
      let later = walk rest row.seq row.hash (suc checked) in
      if row.seq == suc p_seq
      then elim (row_defect row p_hash) [
        | none ↦ later
        | some defect ↦ record {
          ok = false;
          rows_checked = suc checked;
          first_break = some (row.seq, defect);
          head_seq = p_seq;
          head_hash = p_hash;
        }
      ]
      else record {
        ok = false;
        rows_checked = suc checked;
        first_break = some (
          row.seq,
          found seq_gap (some (f.show (some (number (suc p_seq)))))
              (some (f.show (some (number row.seq)))),
        );
        head_seq = p_seq;
        head_hash = p_hash;
      }

-- `verify_anchors`: the breaks of published anchors, by their numbers, against the hashes of the
-- table.
unfoldable pub verify_anchors : (ℕ → Option String) → List (ℕ × String) → List (ℕ × Found)
verify_anchors table [] = []
verify_anchors table ((seq, hash) ∷ rest) =
    let later = verify_anchors table rest in
    elim (table seq) [
      | none ↦ (seq, found anchor_row_missing (some hash) none) ∷ later
      | some actual ↦
          if str_eq actual hash
          then later
          else (seq, found anchor_hash_mismatch (some hash) (some actual)) ∷ later
    ]
