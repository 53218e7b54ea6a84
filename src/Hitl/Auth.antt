-- ===== src/Hitl/Auth.antt =====
-- auth.py of hitl_backend: the check of an operator's token. PyJWT is an argument.
use agentic_fintech_ecosyste.Prelude.{
  ℕ, String, Bool, false, not, Option, none, some, List, [], ◌∷◌, str_eq, ltb, length, codes,
  is_blank, strip, ◌||◌, if◌then◌else◌,
}
use Prim.Native.String.{◌++◌}
use agentic_fintech_ecosyste.Sharp.Json.{
  Json, text, array, object, Items, no_items, item, Members, get,
}
use agentic_fintech_ecosyste.Hitl.Python.{Python}
use agentic_fintech_ecosyste.Hitl.Body.{is_word}
use agentic_fintech_ecosyste.Hitl.Decide.{Operator}

-- `AuthError`
pub record AuthError : Type 0 where
  pub status : ℕ
  pub code : String
  pub message : String

-- `crashed` is an exception that is not an `AuthError`.
pub data Login : Type 0 where
  granted : Operator → Login
  refused : AuthError → Login
  crashed : String → Login

-- The claims of a token, or the name of the `PyJWTError`.
pub data Decoded : Type 0 where
  claims : Members → Decoded
  rejects : String → Decoded

-- The arguments of `jwt.decode` after the token; without an audience `verify_aud` is off.
pub record Authenticator : Type 0 where
  pub secret : String
  pub issuer : Option String
  pub audience : Option String
  pub service_token : Option String

abbrev pub max_sub : ℕ
max_sub = 128

abbrev refuse : ℕ → String → String → Login
refuse status code message = refused (record { status = status; code = code; message = message })

-- `headers.get(name) or ""`
abbrev pub header_or_empty : Option String → String
header_or_empty none = ""
header_or_empty (some s) = s

-- `header.partition(" ")`: what stands before the first space, and after it.
unfoldable pub partition_space : String → String × String
partition_space String.[] = ("", "")
partition_space (String.◌∷◌ c s) =
    let rest = partition_space s in
    if str_eq (String.◌∷◌ c String.[]) " " then ("", s) else (String.◌∷◌ c rest.0, rest.1)

-- `"mfa" in amr`, for a list.
unfoldable pub has_item : String → Items → Bool
has_item s no_items = false
has_item s (item v rest) = is_word (some v) s || has_item s rest

module _ (py : Python) where
  texts : Items → List String
  texts no_items = []
  texts (item v rest) = py.text_of (some v) ∷ texts rest

  -- The claim `amr`.
  unfoldable pub with_amr : String → String → Option Json → Login
  unfolding texts
  with_amr sub role (some (array amr)) =
      if has_item "mfa" amr
      then granted (record { sub = sub; role = role; amr = texts amr })
      else refuse 403 "mfa_required" "multi-factor authentication is required"
  with_amr sub role _ = refuse 403 "mfa_required" "multi-factor authentication is required"

  -- The claim `role`: a list or an object is not hashable, and the test of membership raises.
  unfoldable pub with_role : String → Option Json → Option Json → Login
  with_role sub (some (text role)) amr =
      if str_eq role "approver" || str_eq role "viewer"
      then with_amr sub role amr
      else refuse 403 "role_not_allowed" "role must be approver or viewer"
  with_role sub (some (array vs)) amr = crashed "TypeError"
  with_role sub (some (object ms)) amr = crashed "TypeError"
  with_role sub _ amr = refuse 403 "role_not_allowed" "role must be approver or viewer"

  -- The claim `sub`.
  unfoldable pub with_sub : Option Json → Option Json → Option Json → Login
  with_sub (some (text sub)) role amr =
      if is_blank sub || ltb max_sub (length (codes sub))
      then refuse 401 "token_invalid" "token has no usable sub"
      else with_role sub role amr
  with_sub _ role amr = refuse 401 "token_invalid" "token has no usable sub"

  unfoldable pub on_decoded : Decoded → Login
  on_decoded (rejects name) = refuse 401 "token_invalid" ("token rejected: " ++ name)
  on_decoded (claims ms) = with_sub (get "sub" ms) (get "role" ms) (get "amr" ms)

  -- The bearer token. `decode` is `jwt.decode`.
  unfoldable pub with_bearer : (String → Decoded) → String × String → Login
  with_bearer decode (scheme, token) =
      if not (str_eq scheme "Bearer") || is_blank token
      then refuse 401 "token_missing" "bearer token required"
      else on_decoded (decode (strip token))

  -- The service token, where one is configured.
  unfoldable pub service_refused : Option String → Option String → Bool
  service_refused none given = false
  service_refused (some expected) given = not (str_eq (header_or_empty given) expected)

  -- `authenticate`, from the headers `X-Service-Token` and `Authorization`.
  unfoldable pub authenticate :
      (Authenticator → String → Decoded) → Authenticator → Option String → Option String → Login
  authenticate decode auth service_header authorization =
      if service_refused auth.service_token service_header
      then refuse 401 "service_token_invalid" "service token missing or invalid"
      else with_bearer (decode auth) (partition_space (header_or_empty authorization))
