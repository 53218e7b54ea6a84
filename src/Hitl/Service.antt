-- ===== src/Hitl/Service.antt =====
-- service.py of hitl_backend: `decide`, and the two reads.
use Prim.Native.String.{◌++◌}
use agentic_fintech_ecosyste.Prelude.{
  ℕ, String, Bool, not, Option, none, some, List, [], ◌∷◌, ◌++◌ as append, map, str_eq, ◌||◌, ltb,
  truncate, if◌then◌else◌,
}
use agentic_fintech_ecosyste.Sharp.Json.{Json, object}
use agentic_fintech_ecosyste.Hitl.Python.{
  at_most, Python, Reply, answers, fails, ApiError, api_error, Result, ok, err, error_json,
  code_name,
}
use agentic_fintech_ecosyste.Hitl.Holds.{Held, Decision, hold_json, object_of}
use agentic_fintech_ecosyste.Hitl.Body.{Request, word_of, is_hold_id, parse_body}
use agentic_fintech_ecosyste.Hitl.Decide.{
  Policy, Operator, Attempt, ResolveRequest, ExecuteRequest, resolved, relayed, World, Desk, lookup,
  is_some, logged, audit, audit_unavailable, fetch_error, map_resolve_error, hitl_status, required,
  approve_error, relay_json, override_record, not_relayed,
}

-- `HitlService`; `relay` is whether an execution motor is configured.
pub record Hitl : Type 0 where
  pub python : Python
  pub policy : Policy
  pub relay : Bool

-- `f"{operator.sub}\x00{request_id}"`
unfoldable pub key_of : String → String → String
key_of sub request_id = sub ++ "\0" ++ request_id

-- The fields of a decision in progress: who, on which hold, what, and when.
pub record Case : Type 0 where
  pub operator : Operator
  pub hold_id : String
  pub request : Request

abbrev pub is_approver : Case → Bool
is_approver c = str_eq c.operator.role "approver"

abbrev pub is_final : Case → Desk → Bool
is_final c d = is_some (lookup c.hold_id d.finals)

unfoldable pub attempt_of : Case → Attempt
attempt_of c = record {
  hold_id = c.hold_id;
  request = c.request;
  role = c.operator.role;
  amr = c.operator.amr;
}

-- The arguments of `resolve`.
unfoldable pub resolve_request : Policy → Case → ResolveRequest
resolve_request pol c = record {
  hold_id = c.hold_id;
  approve = c.request.approve;
  note = truncate 480 (c.operator.sub ++ ": " ++ c.request.reason);
  cooling_period_enforced = pol.cooling;
}

module _ (h : Hitl) (w : World) (c : Case) where
  -- `hold_json` of the hold as it was decided.
  unfoldable pub decided_json : Held → String → List (String × Json)
  decided_json held status = hold_json h.python held status (required h.policy held) (
      record {
        approver_sub = c.operator.sub;
        decision = word_of c.request.approve;
        reason = c.request.reason;
        decided_at_ns = w.now;
      }
      ∷ [])

  unfoldable pub execute_request : Held → Decision → ExecuteRequest
  execute_request held result = record {
    decision = result;
    held = held;
    hitl_override = override_record h.policy c.operator c.request w.now;
  }

  -- `_relay_release`
  unfoldable pub relay_release : Held → Decision → Desk → Json × Desk
  unfolding execute_request
  relay_release held result d =
      if h.relay
      then (relay_json w.ack, record d { trail = relayed (execute_request held result) ∷ d.trail })
      else (not_relayed "no execution-motor configured (dev)", d)

  -- The final record, and the result in the audit log.
  unfoldable pub finish : Json → Desk → Result Json × Desk
  finish hold d = (
    ok hold,
    audit w "hitl.decision.result" c.operator (attempt_of c)
        (record d { finals = (c.hold_id, hold) ∷ d.finals }),
  )

  -- `hold["execution"] = execution`
  unfoldable pub with_execution : Held → String → Json × Desk → Result Json × Desk
  with_execution held status (execution, d) =
      finish
        (object (object_of (append (decided_json held status) (("execution", execution) ∷ [])))) d

  -- From Aegis's decision.
  unfoldable pub settle : Held → Decision → Desk → Result Json × Desk
  settle held result d =
      let status = hitl_status result.decision c.request.approve in
      if str_eq status "APPROVED"
      then with_execution held status (relay_release held result d)
      else finish (object (object_of (decided_json held status))) d

  unfoldable pub on_resolution : Held → Reply Decision → Desk → Result Json × Desk
  on_resolution held (fails e) d = (err (map_resolve_error e), d)
  on_resolution held (answers result) d = settle held result d

  -- The attempt in the audit log, then the call of `resolve`.
  unfoldable pub resolve : Held → Desk → Result Json × Desk
  unfolding on_resolution
  resolve held d =
      let request = resolve_request h.policy c in
      let answer = w.resolution request in
      let written = logged "hitl.decision.attempt" c.operator (attempt_of c) d in
      if w.accepts "hitl.decision.attempt"
      then on_resolution held answer
          (record written { trail = resolved request answer ∷ written.trail })
      else (err audit_unavailable, d)

  unfoldable pub expired : Held → Bool
  expired held =
      at_most held.signal.valid_until_ns w.now || at_most held.decision.hold_expires_at_ns w.now

  -- From what the checks of an approval found.
  unfoldable pub on_checks : Held → Option ApiError → Desk → Result Json × Desk
  on_checks held (some e) d = (err e, d)
  on_checks held none d = resolve held d

  -- The checks of an approval; a rejection has none.
  abbrev pub checks : Held → Option ApiError
  checks held = if c.request.approve then approve_error h.policy held w.now else none

  unfoldable pub with_held : Held → Desk → Result Json × Desk
  with_held held d =
      if expired held
      then (err (api_error 410 "expired" "the hold has expired"), d)
      else on_checks held (checks held) d

  unfoldable pub on_fetch : Reply Held → Desk → Result Json × Desk
  on_fetch (fails e) d = (err (fetch_error e), d)
  on_fetch (answers held) d = with_held held d

  -- `_decide_locked`
  unfoldable pub decide_locked : Desk → Result Json × Desk
  unfolding on_fetch
  decide_locked d =
      if not (is_approver c)
      then (err (api_error 403 "role_not_allowed" "only approvers can decide"), d)
      else if is_final c d
      then (err (api_error 409 "already_final" "this hold already has a final decision"), d)
      else on_fetch w.held d

  -- The reply of `decide`; a refusal is audited, except that of the audit log.
  unfoldable pub conclude : Result Json → Desk → (ℕ × Json) × Desk
  conclude (ok hold) d = ((200, hold), d)
  conclude (err e) d = (
    (e.status, error_json e.code e.message),
    if str_eq e.code "audit_unavailable"
        then d
        else audit w "hitl.decision.denied" c.operator (attempt_of c) d,
  )

  -- A reply is cached unless its outcome is unknown.
  unfoldable pub remember : (ℕ × Json) × Desk → Result (ℕ × Json) × Desk
  remember (reply, d) = (
    ok reply,
    if ltb reply.0 500
        then record d { replies = (key_of c.operator.sub c.request.request_id, reply) ∷ d.replies }
        else d,
  )

  -- Under the lock.
  unfoldable pub with_lock : Option (ℕ × Json) → Desk → Result (ℕ × Json) × Desk
  with_lock (some reply) d =
      if w.accepts "hitl.decision.replayed"
      then (ok reply, logged "hitl.decision.replayed" c.operator (attempt_of c) d)
      else (err audit_unavailable, d)
  with_lock none d = let (r, d') = decide_locked d in remember (conclude r d')

-- What `decide` does with a parsed body.
unfoldable pub decide_parsed : Hitl → World → Case → Desk → Result (ℕ × Json) × Desk
decide_parsed h w c d =
    if is_hold_id c.hold_id
    then with_lock h w c (lookup (key_of c.operator.sub c.request.request_id) d.replies) d
    else (err (api_error 404 "not_found" "unknown hold"), d)

unfoldable pub on_body :
    Hitl → World → Operator → String → Result Request → Desk → Result (ℕ × Json) × Desk
on_body h w operator hold_id (err e) d = (err e, d)
on_body h w operator hold_id (ok request) d =
    decide_parsed h w (record { operator = operator; hold_id = hold_id; request = request }) d

-- `decide`
unfoldable pub decide : Hitl → World → Operator → String → Json → Desk → Result (ℕ × Json) × Desk
decide h w operator hold_id body d = on_body h w operator hold_id (parse_body h.python body) d

-- `_pending_json`
unfoldable pub pending_json : Hitl → Held → Json
pending_json h held =
    object (object_of (hold_json h.python held "PENDING" (required h.policy held) []))

on_get : Hitl → Reply Held → Result Json
on_get h (fails e) = err (fetch_error e)
on_get h (answers held) = ok (pending_json h held)

get_hold : Hitl → Reply Held → Option Json → Result Json
unfolding on_get
get_hold h reply (some hold) = ok hold
get_hold h reply none = on_get h reply

-- `get`, with Aegis's answer.
unfoldable pub get : Hitl → Reply Held → String → Desk → Result Json
unfolding get_hold
get h reply hold_id d =
    if is_hold_id hold_id
    then get_hold h reply (lookup hold_id d.finals)
    else err (api_error 404 "not_found" "unknown hold")

-- `list_pending`, with Aegis's answer to `_call`.
unfoldable pub list_pending : Hitl → Reply (List Held) → Result (List Json)
list_pending h (answers holds) = ok (map (pending_json h) holds)
list_pending h (fails e) =
    err (api_error 503 "aegis_unavailable" ("Aegis call failed: " ++ code_name e.code))
