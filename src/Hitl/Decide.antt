-- ===== src/Hitl/Decide.antt =====
-- service.py of hitl_backend: the state and the parts of `decide`. Every answer of Aegis, the
-- execution motor, the audit log and the clock is an argument; the trail lists what was called.
use Prim.Native.String.{◌++◌}
use agentic_fintech_ecosyste.Prelude.{
  ℕ, String, Bool, true, false, not, Option, none, some, List, [], ◌∷◌, str_eq, ◌==◌, ◌&&◌, ltb,
  truncate, if◌then◌else◌,
}
use agentic_fintech_ecosyste.Sharp.Json.{Json, boolean, text, object, no_members, member}
use agentic_fintech_ecosyste.Hitl.Python.{
  ℤ, minus, not_found, failed_precondition, permission_denied, other_code, code_name, RpcError,
  Reply, answers, fails, ApiError, api_error,
}
use agentic_fintech_ecosyste.Hitl.Holds.{Held, Decision, Threshold, required_approvals, object_of}
use agentic_fintech_ecosyste.Hitl.Body.{Request}

-- `cooling` is `cooling_period_s > 0`; `too_soon` compares a wait in nanoseconds with the period,
-- both as doubles.
pub record Policy : Type 0 where
  pub quantity_threshold : Threshold
  pub notional_threshold_usd : Option Threshold
  pub cooling : Bool
  pub too_soon : ℤ → Bool
  pub unscored_dev : Bool

pub record Operator : Type 0 where
  pub sub : String
  pub role : String
  pub amr : List String

-- What the payload of an audit record says of an attempt.
pub record Attempt : Type 0 where
  pub hold_id : String
  pub request : Request
  pub role : String
  pub amr : List String

pub record ResolveRequest : Type 0 where
  pub hold_id : String
  pub approve : Bool
  pub note : String
  pub cooling_period_enforced : Bool

-- `HITLOverrideRecord`; its distress score is zero.
pub record OverrideRecord : Type 0 where
  pub operator_id : String
  pub override_timestamp_ns : ℤ
  pub override_text : String
  pub cooling_period_enforced : Bool
  pub decision : String

-- `ExecuteRequest`; its snapshot and its judge synthesis are those of the held signal.
pub record ExecuteRequest : Type 0 where
  pub decision : Decision
  pub held : Held
  pub hitl_override : OverrideRecord

pub record Ack : Type 0 where
  pub accepted : Bool
  pub status : String
  pub reject_reason : String
  pub detail : String

-- `execution`, the motor's part of an answer.
abbrev pub not_relayed : String → Json
not_relayed detail =
    object (member "relayed" (boolean false) (member "detail" (text detail) no_members))

-- What the service called: an audit record that was written, and the calls with their answers.
pub data Effect : Type 0 where
  audited : String → String → Attempt → Effect
  resolved : ResolveRequest → Reply Decision → Effect
  relayed : ExecuteRequest → Effect

-- The answers of the world to one request. `accepts` is whether the audit log takes an event.
pub record World : Type 0 where
  pub accepts : String → Bool
  pub held : Reply Held
  pub now : ℤ
  pub resolution : ResolveRequest → Reply Decision
  pub ack : Reply Ack

-- `DecisionBook`, with the trail, the latest first.
pub record Desk : Type 0 where
  pub finals : List (String × Json)
  pub replies : List (String × (ℕ × Json))
  pub trail : List Effect

unfoldable pub lookup {ℓ} : {A : Type ℓ} → String → List (String × A) → Option A
lookup key [] = none
lookup key ((k, v) ∷ rest) = if str_eq key k then some v else lookup key rest

abbrev pub is_some {ℓ} : {A : Type ℓ} → Option A → Bool
is_some none = false
is_some (some a) = true

-- `self._audit.record`, when the audit log takes it.
abbrev pub logged : String → Operator → Attempt → Desk → Desk
logged event operator attempt d = record d { trail = audited event operator.sub attempt ∷ d.trail }

-- `_audit_quietly`
unfoldable pub audit : World → String → Operator → Attempt → Desk → Desk
audit w event operator attempt d = if w.accepts event then logged event operator attempt d else d

abbrev pub audit_unavailable : ApiError
audit_unavailable = api_error 503 "audit_unavailable" "audit log unavailable; decision refused"

-- `_fetch`, its error.
unfoldable pub fetch_error : RpcError → ApiError
fetch_error e = elim e.code [
  | not_found ↦ api_error 404 "not_found" "unknown or expired hold"
  | _ ↦ api_error 503 "aegis_unavailable" ("Aegis call failed: " ++ code_name e.code)
]

abbrev details_of : Option String → String
details_of none = ""
details_of (some s) = truncate 300 s

-- `_map_resolve_error`
unfoldable pub map_resolve_error : RpcError → ApiError
map_resolve_error e = elim e.code [
  | not_found ↦ api_error 410 "expired" "the hold expired or is unknown to Aegis"
  | failed_precondition ↦
      api_error 422 "aegis_refused" ("Aegis refused the release: " ++ details_of e.details)
  | permission_denied ↦
      api_error 503 "aegis_permission" "this service is not allowed to resolve holds"
  | other_code name ↦
      api_error 503 "aegis_unavailable" ("outcome unknown (" ++ name ++ "); reload to verify")
]

-- `_hitl_status`
unfoldable pub hitl_status : ℕ → Bool → String
hitl_status aegis_decision approve =
    if not approve then "REJECTED" else if aegis_decision == 1 then "APPROVED" else "RELEASE_DENIED"

-- `_required`
unfoldable pub required : Policy → Held → ℕ
required pol held =
    required_approvals held.signal.quantity_nanos held.signal.price_limit_nanos
      pol.quantity_threshold pol.notional_threshold_usd

-- The checks of `_decide_locked` on an approval.
unfoldable pub approve_error : Policy → Held → ℤ → Option ApiError
unfolding minus
approve_error pol held now =
    if ltb 1 (required pol held)
    then some (
        api_error 422 "second_approver_signing_unavailable"
          "this hold needs two approvers; signed second approvals are not implemented")
    else if not pol.unscored_dev
    then some (
        api_error 422 "distress_classifier_unavailable"
          "no reverse-guardrail distress classifier is configured")
    else if pol.cooling && pol.too_soon (minus now held.decision.decided_at_ns)
    then some (api_error 422 "cooling_period" "the cooling period has not elapsed")
    else none

-- `_relay_release`, from the answer of the motor.
unfoldable pub relay_json : Reply Ack → Json
relay_json (fails e) = not_relayed ("execution-motor call failed: " ++ code_name e.code)
relay_json (answers ack) = object (
    object_of (
      ("relayed", boolean true)
      ∷ ("accepted", boolean ack.accepted)
      ∷ ("status", text ack.status)
      ∷ ("rejectReason", text ack.reject_reason)
      ∷ ("detail", text (truncate 300 ack.detail))
      ∷ []))

-- `_override_record`
unfoldable pub override_record : Policy → Operator → Request → ℤ → OverrideRecord
override_record pol operator request now = record {
  operator_id = operator.sub;
  override_timestamp_ns = now;
  override_text = request.reason;
  cooling_period_enforced = pol.cooling;
  decision = if request.approve then "approved" else "rejected";
}
