-- ===== src/Motor/Limits/Claims.antt =====
-- limits.py: a key is claimed once.
use agentic_fintech_ecosyste.Prelude.{
  ℕ, ◌+◌, ◌≤◌, String, Bool, true, false, List, [], ◌∷◌, ◌≡◌, ◌↔◌, refl, arith, contains, str_eq,
  eq_iff, eq_refl, if◌then◌else◌, Bool-cases, inl, inr,
}
use agentic_fintech_ecosyste.Motor.Limits.{Store, fresh, claim}

-- After a claim the key is known, whatever the reply.
pub claim_marks :
    (durable : Bool) (key : String) (s : Store) → contains key (claim durable key s).1.seen ≡ true
unfolding claim contains
claim_marks durable key s = ground (arith, eq_refl key)

-- No claim forgets a key.
pub claim_keeps :
    (durable : Bool) (key other : String) (s : Store)
    → contains other s.seen ≡ true
    → contains other (claim durable key s).1.seen ≡ true
unfolding claim contains
claim_keeps durable key other s h = ground arith

-- The reply is `fresh` only to a key that was not known.
pub claim_fresh :
    (durable : Bool) (key : String) (s : Store)
    → (claim durable key s).0 ≡ fresh
    → contains key s.seen ≡ false
unfolding claim
claim_fresh durable key s h = ground arith

-- How often `key` is claimed afresh in a run of claims; each says whether its write succeeds.
unfoldable pub fresh_claims : String → List (Bool × String) → Store → ℕ
fresh_claims key [] s = 0
fresh_claims key ((durable, k) ∷ rest) s =
    let (reply, s') = claim durable k s in
    let later = fresh_claims key rest s' in
    elim reply [ fresh ↦ (if str_eq key k then later + 1 else later) | _ ↦ later ]

fresh_claims_known :
    (key : String) (calls : List (Bool × String)) (s : Store)
    → contains key s.seen ≡ true
    → fresh_claims key calls s ≡ 0
unfolding fresh_claims
fresh_claims_known key [] s h = refl
fresh_claims_known key ((durable, k) ∷ rest) s h = ground (
  arith,
  eq_iff key k,
  claim_fresh durable k s,
  fresh_claims_known key rest (claim durable k s).1 (claim_keeps durable k key s h),
)

-- In any run of claims, from any store and with any failures of the disk, a key is claimed afresh
-- at most once.
pub fresh_claims-le-one :
    (key : String) (calls : List (Bool × String)) (s : Store) → fresh_claims key calls s ≤ 1
unfolding fresh_claims
fresh_claims-le-one key [] s = omega arith
fresh_claims-le-one key ((durable, k) ∷ rest) s = elim (Bool-cases (str_eq key k)) [
  | inl e ↦ ground (
    arith,
    fresh_claims_known key rest (claim durable k s).1
        (rw ((eq_iff key k).0 e) (claim_marks durable k s)),
  )
  | inr e ↦ ground (arith, fresh_claims-le-one key rest (claim durable k s).1)
]

-- `InMemoryIdempotencyStore.claim`
unfoldable pub claim_in_memory : String → List String → Bool × List String
claim_in_memory key seen = if contains key seen then (false, seen) else (true, key ∷ seen)

-- While every write succeeds, the file store grants and refuses the same claims as the one in
-- memory, and knows the same keys after them.
pub claim-claim_in_memory :
    (key : String) (s : Store)
    → (((claim_in_memory key s.seen).0 ≡ true) ↔ ((claim true key s).0 ≡ fresh))
      × ((claim true key s).1.seen ≡ (claim_in_memory key s.seen).1)
unfolding claim claim_in_memory
claim-claim_in_memory key s = ((λ h. ground arith, λ h. ground arith), ground arith)
