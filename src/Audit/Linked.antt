-- ===== src/Audit/Linked.antt =====
-- verifier.py of afe_audit: a chain that is verified is linked from its predecessor.
use agentic_fintech_ecosyste.Prelude.{
  ℕ, suc, String, true, Option, none, some, List, [], ◌∷◌, ◌≡◌, arith, str_eq, eq_iff, ap, All,
  Option-cases, Bool-cases, inl, inr, ◌∙◌,
}
use agentic_fintech_ecosyste.Audit.{Format, Row, row_defect, walk, verify_anchors}

-- Each row has the next number, the hash of its own text, and the hash of the row before it.
abbrev pub IsLinked : Format → List Row → ℕ → String → Type 0
IsLinked f [] p_seq p_hash = Unit
IsLinked f (row ∷ rest) p_seq p_hash =
    (row.seq ≡ suc p_seq)
    × (row.hash ≡ f.hash_canonical row.canonical)
    × (row.prev_hash ≡ p_hash)
    × IsLinked f rest row.seq row.hash

row_defect-none :
    (f : Format) (row : Row) (p_hash : String)
    → row_defect f row p_hash ≡ none
    → (row.hash ≡ f.hash_canonical row.canonical) × (row.prev_hash ≡ p_hash)
unfolding row_defect
row_defect-none f row p_hash h = (
  (eq_iff row.hash (f.hash_canonical row.canonical)).0 (ground arith),
  (eq_iff row.prev_hash p_hash).0 (ground arith),
)

-- A chain that is verified from a predecessor is linked: every row has the number after that of the
-- row before it, the hash of its own canonical text, and the hash of the row before it.
pub walk-IsLinked :
    (f : Format) (rows : List Row) (p_seq : ℕ) (p_hash : String) (checked : ℕ)
    → (walk f rows p_seq p_hash checked).ok ≡ true
    → IsLinked f rows p_seq p_hash
unfolding walk
walk-IsLinked f [] p_seq p_hash checked h = tt
walk-IsLinked f (row ∷ rest) p_seq p_hash checked h =
    let clean : row_defect f row p_hash ≡ none = ground arith in
    let (hashed, linked) = row_defect-none f row p_hash clean in
    (
      ground arith,
      hashed,
      linked,
      walk-IsLinked f rest row.seq row.hash (suc checked) (ground arith),
    )

-- When no anchor is reported, the table has a row under the number of every anchor, with its hash.
pub verify_anchors_complete :
    (table : ℕ → Option String) (anchors : List (ℕ × String))
    → verify_anchors table anchors ≡ []
    → All (λ (a : ℕ × String). table a.0 ≡ some a.1) anchors
unfolding verify_anchors
verify_anchors_complete table [] h = tt
verify_anchors_complete table ((seq, hash) ∷ rest) h = elim (Option-cases (table seq)) [
  | inl absent ↦ absurd (ground arith)
  | inr (actual, there) ↦ elim (Bool-cases (str_eq actual hash)) [
    | inl same ↦ (
      there ∙ ap some ((eq_iff actual hash).0 same),
      verify_anchors_complete table rest (ground arith),
    )
    | inr differs ↦ absurd (ground arith)
  ]
]
