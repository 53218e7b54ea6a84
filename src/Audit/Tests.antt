-- ===== src/Audit/Tests.antt =====
-- The verification of a chain of two rows, and of an anchor.
use Prim.Native.String.{◌++◌}
use agentic_fintech_ecosyste.Prelude.{
  ℕ, String, Bool, true, false, Option, none, some, List, [], ◌∷◌, refl, str_eq, ◌==◌,
}
use agentic_fintech_ecosyste.Sharp.Json.{
  Json, null, number, text, object, Members, no_members, member, get,
}
use agentic_fintech_ecosyste.Audit.{Format, Row, first_mismatch, document_defect, row_defect, walk}
use agentic_fintech_ecosyste.Audit.Linked.{IsLinked, walk-IsLinked}

abbrev document_of : String → ℕ → String → Members
document_of id seq prev = member "prev_hash" (text prev) (
    member "seq" (number seq) (
      member "event_type" (text "e") (
        member "actor" (text "a") (
          member "payload" null
            (member "occurred_at" (text "T") (member "id" (text id) no_members))))))

abbrev loads : String → Option Json
loads s = elim (str_eq s "one") [
  | true ↦ some (object (document_of "one" 1 "genesis"))
  | false ↦ some (object (document_of "two" 2 "#one"))
]

abbrev text_of : Option Json → Option String
text_of (some (text s)) = some s
text_of _ = none

abbrev equal : Json → Json → Bool
equal null null = true
equal (number a) (number b) = a == b
equal (text a) (text b) = str_eq a b
equal _ _ = false

abbrev format : Format
format = record {
  hash_canonical = λ s. "#" ++ s;
  loads = loads;
  canonical_json = λ doc. text_of (get "id" doc);
  format_timestamp = λ t. "T";
  equal = equal;
  show = λ v. "";
}

abbrev row : ℕ → String → String → Row
row seq canonical prev = record {
  seq = seq;
  occurred_at = 0;
  event_type = "e";
  actor = "a";
  payload = null;
  canonical = canonical;
  prev_hash = prev;
  hash = "#" ++ canonical;
}

abbrev chain : List Row
chain = row 1 "one" "genesis" ∷ row 2 "two" "#one" ∷ []

walk-IsLinked_example : IsLinked format chain 0 "genesis"
unfolding walk row_defect document_defect first_mismatch get
walk-IsLinked_example = walk-IsLinked format chain 0 "genesis" 0 refl

abbrev table : ℕ → Option String
table n = elim (n == 2) [ true ↦ some "#two" | false ↦ none ]
