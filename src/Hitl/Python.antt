-- ===== src/Hitl/Python.antt =====
-- What hitl_backend reads of Python, protobuf and gRPC: signed integers, the texts of values,
-- the codes of failed calls; and its `ApiError`.
use agentic_fintech_ecosyste.Prelude.{ℕ, String, Bool, Option, truncate}
use agentic_fintech_ecosyste.Sharp.Json.{Json, text, object, no_members, member}
pub use agentic_fintech_ecosyste.Prelude.{ℤ, pos, negsuc}
unfoldable pub use agentic_fintech_ecosyste.Prelude.{at_most, minus}

pub data Enumeration : Type 0 where
  signal_side regime_label reason_code : Enumeration

-- `int_text` and `text_of` are `str`, the second of a missing value (`None`) too; `name_of` is the
-- protobuf `Name`, `none` its `ValueError`; `is_uuid` tells whether `uuid.UUID` accepts a text.
pub record Python : Type 0 where
  pub int_text : ℤ → String
  pub text_of : Option Json → String
  pub name_of : Enumeration → ℤ → Option String
  pub is_uuid : String → Bool

pub data StatusCode : Type 0 where
  not_found failed_precondition permission_denied : StatusCode
  other_code : String → StatusCode

unfoldable pub code_name : StatusCode → String
code_name not_found = "NOT_FOUND"
code_name failed_precondition = "FAILED_PRECONDITION"
code_name permission_denied = "PERMISSION_DENIED"
code_name (other_code name) = name

-- `grpc.RpcError`
pub record RpcError : Type 0 where
  pub code : StatusCode
  pub details : Option String

-- What a remote call comes to.
pub data Reply {ℓ} (A : Type ℓ) : Type ℓ where
  answers : A → Reply A
  fails : RpcError → Reply A

pub record ApiError : Type 0 where
  pub status : ℕ
  pub code : String
  pub message : String

-- `ApiError.__init__`
abbrev pub api_error : ℕ → String → String → ApiError
api_error status code message = record {
  status = status;
  code = code;
  message = truncate 500 message;
}

pub data Result {ℓ} (A : Type ℓ) : Type ℓ where
  ok : A → Result A
  err : ApiError → Result A

-- `_error`
unfoldable pub error_json : String → String → Json
error_json code message = object (
    member "error"
      (object
        (member "code" (text code) (member "message" (text (truncate 500 message)) no_members)))
      no_members)
