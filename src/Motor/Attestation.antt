-- ===== src/Motor/Attestation.antt =====
-- attestation.py: the attestation gate. SHA-256 and the verifier are not code of this repository's
-- motor, and are parameters; a verifier may return a value that is not a boolean, or raise.
use agentic_fintech_ecosyste.Prelude.{
  String, Bool, true, false, Option, none, some, [], ◌∷◌, ◌≡◌, ◌≢◌, ◌&&◌, ◌||◌, arith, ◌==◌, str_eq,
  if◌then◌else◌,
}
use agentic_fintech_ecosyste.Motor.Models.{
  Bytes, AttestedOrder, RejectReason, attestation_missing, attestation_invalid,
}

pub data Verdict : Type 0 where
  returned : Bool → Verdict
  junk raised : Verdict

pub record Verifier : Type 0 where
  pub sha256 : Bytes → Bytes
  pub verify : Bytes → Bytes → String → Verdict

-- The shipped default.
pub deny_all : (Bytes → Bytes) → Verifier
deny_all digest = record { sha256 = digest; verify = λ payload signature key. returned false }

is_empty : Bytes → Bool
is_empty [] = true
is_empty (_ ∷ _) = false

-- `hmac.compare_digest`
unfoldable pub compare_digest : Bytes → Bytes → Bool
compare_digest [] [] = true
compare_digest [] (_ ∷ _) = false
compare_digest (_ ∷ _) [] = false
compare_digest (x ∷ xs) (y ∷ ys) = x == y && compare_digest xs ys

-- Only the literal `True` counts.
accepted : Verdict → Bool
accepted (returned true) = true
accepted _ = false

unfoldable pub evaluate_attestation : Verifier → AttestedOrder → Option RejectReason
unfolding is_empty compare_digest accepted
evaluate_attestation v attested =
    let att = attested.attestation in
    if is_empty att.signature || str_eq att.key_id "" || is_empty att.signed_payload
    then some attestation_missing
    else if compare_digest (v.sha256 att.signed_payload) att.payload_sha256
    then if accepted (v.verify att.signed_payload att.signature att.key_id)
      then none
      else some attestation_invalid
    else some attestation_invalid

pub compare_digest_eq : (xs ys : Bytes) → compare_digest xs ys ≡ true → xs ≡ ys
unfolding compare_digest
compare_digest_eq [] [] h = ground arith
compare_digest_eq [] (y ∷ ys) h = ground arith
compare_digest_eq (x ∷ xs) [] h = ground arith
compare_digest_eq (x ∷ xs) (y ∷ ys) h = ground (arith, compare_digest_eq xs ys)

accepted_eq : (v : Verdict) → accepted v ≡ true → v ≡ returned true
unfolding accepted
accepted_eq (returned true) h = ground arith
accepted_eq (returned false) h = ground arith
accepted_eq junk h = ground arith
accepted_eq raised h = ground arith

-- What an accepted attestation amounts to.
pub record IsAttested (v : Verifier) (attested : AttestedOrder) : Type 0 where
  pub has_signature : attested.attestation.signature ≢ []
  pub has_payload : attested.attestation.signed_payload ≢ []
  pub digest : v.sha256 attested.attestation.signed_payload ≡ attested.attestation.payload_sha256
  pub verified :
      v.verify attested.attestation.signed_payload attested.attestation.signature
        attested.attestation.key_id
      ≡ returned true

-- An attestation passes only with a signature and a payload whose digest is the one stated, and
-- only if the verifier returned the literal true for them.
pub evaluate_attestation-IsAttested :
    (v : Verifier) (attested : AttestedOrder)
    → evaluate_attestation v attested ≡ none
    → IsAttested v attested
unfolding evaluate_attestation
evaluate_attestation-IsAttested v attested h =
    let att = attested.attestation in
    record {
      has_signature = ground arith;
      has_payload = ground arith;
      digest = compare_digest_eq (v.sha256 att.signed_payload) att.payload_sha256 (ground arith);
      verified = accepted_eq (v.verify att.signed_payload att.signature att.key_id) (ground arith);
    }
