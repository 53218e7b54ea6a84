-- ===== src/Hitl/Orderly.antt =====
-- service.py of hitl_backend: the order in which a session's calls stand in the trail.
use agentic_fintech_ecosyste.Prelude.{
  ℕ, String, Bool, true, false, not, ltb, Option, none, some, List, [], ◌∷◌, ◌≡◌, refl, sym, str_eq,
  ◌==◌, if◌then◌else◌, if-of, Bool-cases, inl, inr,
}
use mathlib.Core.Path.{subst}
use mathlib.Core.Bool.{false≢true}
use agentic_fintech_ecosyste.Sharp.Json.{Json}
use agentic_fintech_ecosyste.Hitl.Python.{Reply, answers, fails, ApiError, Result, ok, err}
use agentic_fintech_ecosyste.Hitl.Holds.{Held, Decision}
use agentic_fintech_ecosyste.Hitl.Body.{Request, is_hold_id}
use agentic_fintech_ecosyste.Hitl.Decide.{
  Operator, ResolveRequest, ExecuteRequest, Effect, audited, resolved, relayed, World, Desk, audit,
  hitl_status,
}
use agentic_fintech_ecosyste.Hitl.Service.{
  Hitl, Case, is_approver, is_final, relay_release, execute_request, finish, with_execution, settle,
  on_resolution, resolve, resolve_request, attempt_of, expired, on_checks, with_held, on_fetch,
  decide_locked, conclude, remember, with_lock, decide_parsed, on_body, decide,
}

-- The latest call is the audit record of an attempt to decide this hold in this way.
abbrev pub Announces : ResolveRequest → List Effect → Type 0
Announces r (audited event sub attempt ∷ rest) =
    (event ≡ "hitl.decision.attempt")
    × (attempt.hold_id ≡ r.hold_id)
    × (attempt.request.approve ≡ r.approve)
Announces r _ = ⊥

-- The latest call is Aegis's release of the decision that is relayed.
abbrev pub Releases : ExecuteRequest → List Effect → Type 0
Releases e (resolved r (answers decision) ∷ rest) =
    (r.approve ≡ true) × (decision ≡ e.decision) × (decision.decision == 1 ≡ true)
Releases e _ = ⊥

-- Aegis is asked only right after the attempt is in the audit log, and the motor only right after
-- Aegis approved the release.
abbrev pub IsOrderly : List Effect → Type 0
IsOrderly [] = Unit
IsOrderly (audited event sub attempt ∷ rest) = IsOrderly rest
IsOrderly (resolved r answer ∷ rest) = Announces r rest × IsOrderly rest
IsOrderly (relayed e ∷ rest) = Releases e rest × IsOrderly rest

status_approved :
    (b : Bool) → str_eq (if b then "APPROVED" else "RELEASE_DENIED") "APPROVED" ≡ true → b ≡ true
status_approved true e = refl
status_approved false e = e

pub hitl_status_approved :
    (n : ℕ) (approve : Bool)
    → str_eq (hitl_status n approve) "APPROVED" ≡ true
    → (approve ≡ true) × (n == 1 ≡ true)
unfolding hitl_status
hitl_status_approved n true e = (refl, status_approved (n == 1) e)
hitl_status_approved n false e = absurd (false≢true e)

module _ (h : Hitl) (w : World) (c : Case) where
  audit-IsOrderly :
      (event : String) (d : Desk)
      → IsOrderly d.trail
      → IsOrderly (audit w event c.operator (attempt_of c) d).trail
  unfolding audit
  audit-IsOrderly event d o = if-of (λ (x : Desk). IsOrderly x.trail) (w.accepts event) o o

  finish-IsOrderly :
      (hold : Json) (d : Desk) → IsOrderly d.trail → IsOrderly (finish h w c hold d).1.trail
  unfolding finish
  finish-IsOrderly hold d o = audit-IsOrderly _ _ o

  relay_release-IsOrderly :
      (held : Held) (result : Decision) (d : Desk)
      → ((e : ExecuteRequest) → e.decision ≡ result → Releases e d.trail)
      → IsOrderly d.trail
      → IsOrderly (relay_release h w c held result d).1.trail
  unfolding relay_release execute_request
  relay_release-IsOrderly held result d follows o =
      if-of (λ (x : Json × Desk). IsOrderly x.1.trail) h.relay
        (follows (execute_request h w c held result) refl, o) o

  settle-IsOrderly :
      (held : Held) (result : Decision) (d : Desk) (rest : List Effect)
      → d.trail ≡ resolved (resolve_request h.policy c) (answers result) ∷ rest
      → IsOrderly d.trail
      → IsOrderly (settle h w c held result d).1.trail
  unfolding settle with_execution resolve_request
  settle-IsOrderly held result d rest last o =
      elim (Bool-cases (str_eq (hitl_status result.decision c.request.approve) "APPROVED")) [
        | inl released ↦
            let (approve, approved) =
              hitl_status_approved result.decision c.request.approve released in
            rw released (
              finish-IsOrderly _ _ (
                relay_release-IsOrderly held result d
                  (λ e same. subst (Releases e) (sym last) (approve, sym same, approved)) o))
        | inr kept ↦ rw kept (finish-IsOrderly _ d o)
      ]

  on_resolution-IsOrderly :
      (held : Held) (answer : Reply Decision) (d : Desk) (rest : List Effect)
      → d.trail ≡ resolved (resolve_request h.policy c) answer ∷ rest
      → IsOrderly d.trail
      → IsOrderly (on_resolution h w c held answer d).1.trail
  unfolding on_resolution
  on_resolution-IsOrderly held (fails e) d rest last o = o
  on_resolution-IsOrderly held (answers result) d rest last o =
      settle-IsOrderly held result d rest last o

  resolve-IsOrderly :
      (held : Held) (d : Desk) → IsOrderly d.trail → IsOrderly (resolve h w c held d).1.trail
  unfolding resolve resolve_request attempt_of
  resolve-IsOrderly held d o =
      if-of (λ (x : Result Json × Desk). IsOrderly x.1.trail) (w.accepts "hitl.decision.attempt")
        (on_resolution-IsOrderly held _ _ _ refl ((refl, refl, refl), o)) o

  on_checks-IsOrderly :
      (held : Held) (found : Option ApiError) (d : Desk)
      → IsOrderly d.trail
      → IsOrderly (on_checks h w c held found d).1.trail
  unfolding on_checks
  on_checks-IsOrderly held (some e) d o = o
  on_checks-IsOrderly held none d o = resolve-IsOrderly held d o

  with_held-IsOrderly :
      (held : Held) (d : Desk) → IsOrderly d.trail → IsOrderly (with_held h w c held d).1.trail
  unfolding with_held
  with_held-IsOrderly held d o =
      if-of (λ (x : Result Json × Desk). IsOrderly x.1.trail) (expired h w c held) o
        (on_checks-IsOrderly held _ d o)

  on_fetch-IsOrderly :
      (answer : Reply Held) (d : Desk)
      → IsOrderly d.trail
      → IsOrderly (on_fetch h w c answer d).1.trail
  unfolding on_fetch
  on_fetch-IsOrderly (fails e) d o = o
  on_fetch-IsOrderly (answers held) d o = with_held-IsOrderly held d o

  decide_locked-IsOrderly :
      (d : Desk) → IsOrderly d.trail → IsOrderly (decide_locked h w c d).1.trail
  unfolding decide_locked
  decide_locked-IsOrderly d o =
      if-of (λ (x : Result Json × Desk). IsOrderly x.1.trail) (not (is_approver c)) o
        (if-of (λ (x : Result Json × Desk). IsOrderly x.1.trail) (is_final c d) o
          (on_fetch-IsOrderly w.held d o))

  conclude-IsOrderly :
      (r : Result Json) (d : Desk) → IsOrderly d.trail → IsOrderly (conclude h w c r d).1.trail
  unfolding conclude
  conclude-IsOrderly (ok hold) d o = o
  conclude-IsOrderly (err e) d o =
      if-of (λ (x : Desk). IsOrderly x.trail) (str_eq e.code "audit_unavailable") o
        (audit-IsOrderly _ d o)

  remember-IsOrderly :
      (reply : ℕ × Json) (d : Desk)
      → IsOrderly d.trail
      → IsOrderly (remember h w c (reply, d)).1.trail
  unfolding remember
  remember-IsOrderly reply d o = if-of (λ (x : Desk). IsOrderly x.trail) (ltb reply.0 500) o o

  with_lock-IsOrderly :
      (cached : Option (ℕ × Json)) (d : Desk)
      → IsOrderly d.trail
      → IsOrderly (with_lock h w c cached d).1.trail
  unfolding with_lock attempt_of
  with_lock-IsOrderly (some reply) d o =
      if-of (λ (x : Result (ℕ × Json) × Desk). IsOrderly x.1.trail)
        (w.accepts "hitl.decision.replayed") o o
  with_lock-IsOrderly none d o =
      let (r, d') = decide_locked h w c d in
      let (reply, d'') = conclude h w c r d' in
      remember-IsOrderly reply d'' (conclude-IsOrderly r d' (decide_locked-IsOrderly d o))

  decide_parsed-IsOrderly :
      (d : Desk) → IsOrderly d.trail → IsOrderly (decide_parsed h w c d).1.trail
  unfolding decide_parsed
  decide_parsed-IsOrderly d o =
      if-of (λ (x : Result (ℕ × Json) × Desk). IsOrderly x.1.trail) (is_hold_id c.hold_id)
        (with_lock-IsOrderly _ d o) o

on_body-IsOrderly :
    (h : Hitl) (w : World) (operator : Operator) (hold_id : String) (r : Result Request) (d : Desk)
    → IsOrderly d.trail
    → IsOrderly (on_body h w operator hold_id r d).1.trail
unfolding on_body
on_body-IsOrderly h w operator hold_id (err e) d o = o
on_body-IsOrderly h w operator hold_id (ok request) d o = decide_parsed-IsOrderly h w _ d o

-- One request keeps the order of the calls.
pub decide-IsOrderly :
    (h : Hitl) (w : World) (operator : Operator) (hold_id : String) (body : Json) (d : Desk)
    → IsOrderly d.trail
    → IsOrderly (decide h w operator hold_id body d).1.trail
unfolding decide
decide-IsOrderly h w operator hold_id body d o = on_body-IsOrderly h w operator hold_id _ d o
