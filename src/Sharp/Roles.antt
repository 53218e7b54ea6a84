-- ===== src/Sharp/Roles.antt =====
-- ports.py of afe_sharp: the authorizer over configured roles.
use agentic_fintech_ecosyste.Prelude.{
  String, Bool, true, Option, none, some, List, [], ◌∷◌, ◌≡◌, arith, contains, if◌then◌else◌,
  Option-cases, inl, inr,
}
use agentic_fintech_ecosyste.Sharp.Json.{Library}
use agentic_fintech_ecosyste.Sharp.Models.{
  Stage, same_stage, normalise_identity, proposal_validation, Result, ok, err,
}

-- `frozenset(normalise_identity(i) for i in ids)`; `none` is the `ProposalValidationError`.
unfoldable pub normalised : Library → List String → Option (List String)
normalised lib [] = some []
normalised lib (i ∷ rest) = elim (normalise_identity lib i) [
  | none ↦ none
  | some who ↦ elim (normalised lib rest) [ none ↦ none | some more ↦ some (who ∷ more) ]
]

-- `StaticRoleAuthorizer.__init__`
unfoldable pub make_roles :
    Library → List (Stage × List String) → Option (List (Stage × List String))
make_roles lib [] = some []
make_roles lib ((stage, ids) ∷ rest) = elim (normalised lib ids) [
  | none ↦ none
  | some names ↦ elim (make_roles lib rest) [
    | none ↦ none
    | some more ↦ some ((stage, names) ∷ more)
  ]
]

-- `self._allowed.get(stage, frozenset())`
unfoldable pub names_at : Stage → List (Stage × List String) → List String
names_at stage [] = []
names_at stage ((s, names) ∷ rest) = if same_stage s stage then names else names_at stage rest

-- `StaticRoleAuthorizer.is_authorized`
unfoldable pub is_authorized : Library → List (Stage × List String) → String → Stage → Result Bool
is_authorized lib allowed identity stage = elim (normalise_identity lib identity) [
  | none ↦ err proposal_validation
  | some who ↦ ok (contains who (names_at stage allowed))
]

-- The authorizer allows only an identity whose canonical form is one of the names of that stage.
pub is_authorized_listed :
    (lib : Library) (allowed : List (Stage × List String)) (identity : String) (stage : Stage)
    → is_authorized lib allowed identity stage ≡ ok true
    → (who : String) × (normalise_identity lib identity ≡ some who)
      × (contains who (names_at stage allowed) ≡ true)
unfolding is_authorized
is_authorized_listed lib allowed identity stage granted =
    elim (Option-cases (normalise_identity lib identity)) [
      | inl nameless ↦ absurd (ground arith)
      | inr (who, named) ↦ (who, named, ground arith)
    ]
