-- ===== src/Hitl/Verified.antt =====
-- auth.py of hitl_backend: who gets in.
use mathlib.Core.Path.{subst}
use agentic_fintech_ecosyste.Prelude.{
  ◌≤◌, String, true, false, not, Option, none, some, ◌≡◌, ◌⊎◌, inl, inr, refl, sym, ap, arith,
  str_eq, eq_iff, ltb, length, codes, is_blank, strip, ◌||◌, Bool-cases,
}
use agentic_fintech_ecosyste.Sharp.Json.{
  Json, null, boolean, number, other, text, array, object, Items, Members, get,
}
use agentic_fintech_ecosyste.Hitl.Python.{Python}
use agentic_fintech_ecosyste.Hitl.Decide.{Operator}
use agentic_fintech_ecosyste.Hitl.Auth.{
  granted, Decoded, claims, rejects, Authenticator, max_sub, header_or_empty, partition_space,
  has_item, with_amr, with_role, with_sub, on_decoded, with_bearer, service_refused, authenticate,
}

-- The service token that is configured was given.
abbrev pub IsTrusted : Option String → Option String → Type 0
IsTrusted none given = Unit
IsTrusted (some expected) given = header_or_empty given ≡ expected

-- The claims of an operator: named, of one of the two roles, and with a second factor.
pub record IsVerified (ms : Members) (who : Operator) : Type 0 where
  pub subject : get "sub" ms ≡ some (text who.sub)
  pub named : is_blank who.sub ≡ false
  pub short : length (codes who.sub) ≤ max_sub
  pub role_claim : get "role" ms ≡ some (text who.role)
  pub known_role : (who.role ≡ "approver") ⊎ (who.role ≡ "viewer")
  pub second_factor :
      (amr : Items) × (get "amr" ms ≡ some (array amr)) × (has_item "mfa" amr ≡ true)

-- The token that PyJWT accepted, and its claims.
abbrev pub HasToken : (String → Decoded) → Option String → Operator → Type 0
HasToken decode authorization who =
    let (scheme, token) = partition_space (header_or_empty authorization) in
    (scheme ≡ "Bearer") × ((ms : Members) × (decode (strip token) ≡ claims ms) × IsVerified ms who)

known_role_of :
    (role : String)
    → str_eq role "approver" || str_eq role "viewer" ≡ true
    → (role ≡ "approver") ⊎ (role ≡ "viewer")
known_role_of role e = elim (Bool-cases (str_eq role "approver")) [
  | inl same ↦ inl ((eq_iff role "approver").0 same)
  | inr differs ↦ inr ((eq_iff role "viewer").0 (ground arith))
]

module _ (py : Python) where
  with_amr-granted :
      (sub role : String) (amr : Option Json) (who : Operator)
      → with_amr py sub role amr ≡ granted who
      → (who.sub ≡ sub)
        × (who.role ≡ role)
        × ((vs : Items) × (amr ≡ some (array vs)) × (has_item "mfa" vs ≡ true))
  unfolding with_amr
  with_amr-granted sub role (some (array vs)) who e = elim (Bool-cases (has_item "mfa" vs)) [
    | inl second ↦ (ground arith, ground arith, (vs, refl, second))
    | inr without ↦ absurd (ground arith)
  ]
  with_amr-granted sub role none who e = absurd (ground arith)
  with_amr-granted sub role (some null) who e = absurd (ground arith)
  with_amr-granted sub role (some (boolean b)) who e = absurd (ground arith)
  with_amr-granted sub role (some (number n)) who e = absurd (ground arith)
  with_amr-granted sub role (some (other s)) who e = absurd (ground arith)
  with_amr-granted sub role (some (text s)) who e = absurd (ground arith)
  with_amr-granted sub role (some (object ms)) who e = absurd (ground arith)

  with_role-granted :
      (sub : String) (role amr : Option Json) (who : Operator)
      → with_role py sub role amr ≡ granted who
      → (who.sub ≡ sub)
        × (role ≡ some (text who.role))
        × ((who.role ≡ "approver") ⊎ (who.role ≡ "viewer"))
        × ((vs : Items) × (amr ≡ some (array vs)) × (has_item "mfa" vs ≡ true))
  unfolding with_role
  with_role-granted sub (some (text role)) amr who e =
      elim (Bool-cases (str_eq role "approver" || str_eq role "viewer")) [
        | inl known ↦
            let (named, same, second) = with_amr-granted sub role amr who (ground arith) in
            (
              named,
              ap (λ r. some (text r)) (sym same),
              subst (λ r. (r ≡ "approver") ⊎ (r ≡ "viewer")) (sym same) (known_role_of role known),
              second,
            )
        | inr unknown ↦ absurd (ground arith)
      ]
  with_role-granted sub none amr who e = absurd (ground arith)
  with_role-granted sub (some null) amr who e = absurd (ground arith)
  with_role-granted sub (some (boolean b)) amr who e = absurd (ground arith)
  with_role-granted sub (some (number n)) amr who e = absurd (ground arith)
  with_role-granted sub (some (other s)) amr who e = absurd (ground arith)
  with_role-granted sub (some (array vs)) amr who e = absurd (ground arith)
  with_role-granted sub (some (object ms)) amr who e = absurd (ground arith)

  -- What `with_sub` asks of the claims.
  abbrev IsVerifiedBy : Option Json → Option Json → Option Json → Operator → Type 0
  IsVerifiedBy sub role amr who =
      (sub ≡ some (text who.sub))
      × (is_blank who.sub ≡ false)
      × (length (codes who.sub) ≤ max_sub)
      × (role ≡ some (text who.role))
      × ((who.role ≡ "approver") ⊎ (who.role ≡ "viewer"))
      × ((vs : Items) × (amr ≡ some (array vs)) × (has_item "mfa" vs ≡ true))

  with_sub-granted :
      (sub role amr : Option Json) (who : Operator)
      → with_sub py sub role amr ≡ granted who
      → IsVerifiedBy sub role amr who
  unfolding with_sub
  with_sub-granted (some (text sub)) role amr who e =
      elim (Bool-cases (is_blank sub || ltb max_sub (length (codes sub)))) [
        | inl unusable ↦ absurd (ground arith)
        | inr usable ↦
            let (same, claim, known, second) = with_role-granted sub role amr who (ground arith) in
            (
              ap (λ s. some (text s)) (sym same),
              subst (λ s. is_blank s ≡ false) (sym same) (ground arith),
              subst (λ s. length (codes s) ≤ max_sub) (sym same) (ground arith),
              claim,
              known,
              second,
            )
      ]
  with_sub-granted none role amr who e = absurd (ground arith)
  with_sub-granted (some null) role amr who e = absurd (ground arith)
  with_sub-granted (some (boolean b)) role amr who e = absurd (ground arith)
  with_sub-granted (some (number n)) role amr who e = absurd (ground arith)
  with_sub-granted (some (other s)) role amr who e = absurd (ground arith)
  with_sub-granted (some (array vs)) role amr who e = absurd (ground arith)
  with_sub-granted (some (object ms)) role amr who e = absurd (ground arith)

  on_decoded-granted :
      (decoded : Decoded) (who : Operator)
      → on_decoded py decoded ≡ granted who
      → (ms : Members) × (decoded ≡ claims ms) × IsVerified ms who
  unfolding on_decoded
  on_decoded-granted (rejects name) who e = absurd (ground arith)
  on_decoded-granted (claims ms) who e =
      let (subject, named, short, role_claim, known, second) =
        with_sub-granted (get "sub" ms) (get "role" ms) (get "amr" ms) who e in
      (
        ms,
        refl,
        record {
          subject = subject;
          named = named;
          short = short;
          role_claim = role_claim;
          known_role = known;
          second_factor = second;
        },
      )

  with_bearer-granted :
      (decode : String → Decoded) (header : String × String) (who : Operator)
      → with_bearer py decode header ≡ granted who
      → (header.0 ≡ "Bearer")
        × ((ms : Members) × (decode (strip header.1) ≡ claims ms) × IsVerified ms who)
  unfolding with_bearer
  with_bearer-granted decode (scheme, token) who e =
      elim (Bool-cases (not (str_eq scheme "Bearer") || is_blank token)) [
        | inl missing ↦ absurd (ground arith)
        | inr there ↦ (
          (eq_iff scheme "Bearer").0 (ground arith),
          on_decoded-granted (decode (strip token)) who (ground arith),
        )
      ]

  service_refused-IsTrusted :
      (expected given : Option String)
      → service_refused py expected given ≡ false
      → IsTrusted expected given
  unfolding service_refused
  service_refused-IsTrusted none given e = tt
  service_refused-IsTrusted (some token) given e =
      (eq_iff (header_or_empty given) token).0 (ground arith)

  -- An operator is let in only with the service token, where one is configured, and with a bearer
  -- token that PyJWT accepts under the configured secret, issuer and audience, whose claims name
  -- the operator in at most 128 characters, give one of the two roles, and list a second factor.
  pub authenticate_granted :
      (decode : Authenticator → String → Decoded) (auth : Authenticator)
      (service_header authorization : Option String) (who : Operator)
      → authenticate py decode auth service_header authorization ≡ granted who
      → IsTrusted auth.service_token service_header × HasToken (decode auth) authorization who
  unfolding authenticate
  authenticate_granted decode auth service_header authorization who e =
      elim (Bool-cases (service_refused py auth.service_token service_header)) [
        | inl stranger ↦ absurd (ground arith)
        | inr trusted ↦ (
          service_refused-IsTrusted auth.service_token service_header trusted,
          with_bearer-granted (decode auth) _ who (ground arith),
        )
      ]
