-- ===== src/Hitl/Body.antt =====
-- service.py of hitl_backend: the shape of a decision request.
use agentic_fintech_ecosyste.Prelude.{
  ℕ, String, Bool, true, false, not, Option, some, List, [], ◌∷◌, length, codes, strip, leb, ◌==◌,
  ◌&&◌, ◌||◌, str_eq, if◌then◌else◌,
}
use agentic_fintech_ecosyste.Sharp.Json.{Json, text, object, get}
use agentic_fintech_ecosyste.Hitl.Python.{Python, ApiError, api_error, Result, ok, err}

unfoldable pub is_id_code : ℕ → Bool
is_id_code c =
    (leb 48 c && leb c 57)
    || (leb 65 c && leb c 90)
    || (leb 97 c && leb c 122)
    || c == 95
    || c == 45

unfoldable pub all_id_codes : List ℕ → Bool
unfolding is_id_code
all_id_codes [] = true
all_id_codes (c ∷ cs) = is_id_code c && all_id_codes cs

-- `HOLD_ID.fullmatch(hold_id)`
unfoldable pub is_hold_id : String → Bool
unfolding all_id_codes
is_hold_id s = leb 1 (length (codes s)) && leb (length (codes s)) 64 && all_id_codes (codes s)

-- `_CONTROL.search(reason)`
unfoldable pub has_control : List ℕ → Bool
has_control [] = false
has_control (c ∷ cs) =
    (leb c 8 || c == 11 || c == 12 || (leb 14 c && leb c 31) || c == 127) || has_control cs

-- The JSON value is this text.
unfoldable pub is_word : Option Json → String → Bool
is_word (some (text s)) t = str_eq s t
is_word _ t = false

abbrev pub min_reason : ℕ
min_reason = 10

abbrev pub max_reason : ℕ
max_reason = 1000

unfoldable pub is_reason : String → Bool
is_reason s =
    leb min_reason (length (codes s))
    && leb (length (codes s)) max_reason
    && not (has_control (codes s))

-- A parsed body; `approve` is `decision == "APPROVE"`.
pub record Request : Type 0 where
  pub approve : Bool
  pub reason : String
  pub request_id : String

abbrev pub word_of : Bool → String
word_of true = "APPROVE"
word_of false = "REJECT"

abbrev invalid : String → ApiError
invalid message = api_error 422 "invalid_request" message

abbrev reason_missing : String → ApiError
reason_missing message = api_error 422 "reason_missing" message

module _ (py : Python) where
  -- The request id.
  unfoldable pub with_id : Bool → String → Option Json → Result Request
  with_id approve reason id =
      if py.is_uuid (py.text_of id)
      then ok (record { approve = approve; reason = reason; request_id = py.text_of id })
      else err (invalid "clientRequestId must be a UUID")

  -- The reason.
  unfoldable pub with_reason : Bool → Option Json → Option Json → Result Request
  with_reason approve (some (text raw)) id =
      if is_reason (strip raw)
      then with_id approve (strip raw) id
      else err (reason_missing "reason must be 10..1000 chars")
  with_reason approve _ id = err (reason_missing "reason is required")

  -- `_parse_body`
  unfoldable pub parse_body : Json → Result Request
  parse_body (object ms) =
      if is_word (get "decision" ms) "APPROVE"
      then with_reason true (get "reason" ms) (get "clientRequestId" ms)
      else if is_word (get "decision" ms) "REJECT"
      then with_reason false (get "reason" ms) (get "clientRequestId" ms)
      else err (invalid "decision must be APPROVE or REJECT")
  parse_body _ = err (invalid "body must be a JSON object")
