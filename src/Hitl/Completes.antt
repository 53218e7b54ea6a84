-- ===== src/Hitl/Completes.antt =====
-- service.py of hitl_backend: a hold that may be decided is decided.
use mathlib.Core.Path.{subst}
use agentic_fintech_ecosyste.Prelude.{
  String, true, none, some, ◌∷◌, ◌≡◌, refl, sym, ap, ◌∙◌, str_eq, eq_iff, eq_refl, if-of,
  Bool-cases, inl, inr,
}
use agentic_fintech_ecosyste.Sharp.Json.{Json}
use agentic_fintech_ecosyste.Hitl.Python.{ℤ, answers, Result, ok}
use agentic_fintech_ecosyste.Hitl.Holds.{Held, Decision}
use agentic_fintech_ecosyste.Hitl.Decide.{
  Policy, World, Desk, lookup, logged, audited, resolved, audit, hitl_status, approve_error,
}
use agentic_fintech_ecosyste.Hitl.Service.{
  Hitl, Case, is_approver, finish, with_execution, settle, on_resolution, resolve, resolve_request,
  attempt_of, expired, on_checks, checks, with_held, on_fetch, decide_locked,
}
use agentic_fintech_ecosyste.Hitl.Asks.{IsApprovable, IsCleared}

-- The hold was decided: the answer is its final record.
abbrev pub IsDecided : String → Result Json × Desk → Type 0
IsDecided id x = (hold : Json) × (x.0 ≡ ok hold) × (lookup id x.1.finals ≡ some hold)

IsApprovable-approve_error :
    (pol : Policy) (held : Held) (now : ℤ)
    → IsApprovable pol held now
    → approve_error pol held now ≡ none
unfolding approve_error
IsApprovable-approve_error pol held now a = rw a.single (rw a.unscored (rw a.cooled refl))

module _ (h : Hitl) (w : World) (c : Case) where
  audit-finals :
      (event : String) (d : Desk) → (audit w event c.operator (attempt_of c) d).finals ≡ d.finals
  unfolding audit
  audit-finals event d = if-of (λ (x : Desk). x.finals ≡ d.finals) (w.accepts event) refl refl

  finish-IsDecided : (hold : Json) (d : Desk) → IsDecided c.hold_id (finish h w c hold d)
  unfolding finish lookup
  finish-IsDecided hold d = (
    hold,
    refl,
    ap (lookup c.hold_id) (audit-finals "hitl.decision.result" _) ∙ rw (eq_refl c.hold_id) refl,
  )

  settle-IsDecided :
      (held : Held) (result : Decision) (d : Desk)
      → IsDecided c.hold_id (settle h w c held result d)
  unfolding settle with_execution
  settle-IsDecided held result d =
      if-of (IsDecided c.hold_id)
        (str_eq (hitl_status result.decision c.request.approve) "APPROVED") (finish-IsDecided _ _)
        (finish-IsDecided _ d)

  checks-clear :
      (held : Held)
      → (c.request.approve ≡ true → IsApprovable h.policy held w.now)
      → checks h w c held ≡ none
  checks-clear held approvable = elim (Bool-cases c.request.approve) [
    | inl approve ↦ rw approve (IsApprovable-approve_error h.policy held w.now (approvable approve))
    | inr reject ↦ rw reject refl
  ]

  resolve-IsDecided :
      (held : Held) (d : Desk) (result : Decision)
      → w.accepts "hitl.decision.attempt" ≡ true
      → w.resolution (resolve_request h.policy c) ≡ answers result
      → IsDecided c.hold_id (resolve h w c held d)
  unfolding resolve on_resolution
  resolve-IsDecided held d result accepted resolution = rw accepted (
      subst
        (λ a. IsDecided c.hold_id (
          on_resolution h w c held a
            (record (logged "hitl.decision.attempt" c.operator (attempt_of c) d) {
              trail =
                  resolved (resolve_request h.policy c) a
                  ∷ audited "hitl.decision.attempt" c.operator.sub (attempt_of c)
                  ∷ d.trail;
            })))
        (sym resolution) (settle-IsDecided held result _))

  -- A cleared hold is decided when the audit log takes the attempt and Aegis answers: the request
  -- returns the hold's record, which is its final one.
  pub decide_locked_completes :
      (d : Desk) (cleared : IsCleared h w c d) (result : Decision)
      → w.accepts "hitl.decision.attempt" ≡ true
      → w.resolution (resolve_request h.policy c) ≡ answers result
      → IsDecided c.hold_id (decide_locked h w c d)
  unfolding decide_locked on_fetch with_held expired on_checks
  decide_locked_completes d cleared result accepted resolution =
      let role : is_approver c ≡ true = (eq_iff c.operator.role "approver").1 cleared.approver in
      let found = resolve-IsDecided cleared.held d result accepted resolution in
      let timely : IsDecided c.hold_id (with_held h w c cleared.held d) =
        rw cleared.signal_valid
          (rw cleared.hold_valid (rw (checks-clear cleared.held cleared.approvable) found)) in
      rw role (
        rw cleared.undecided
          (subst (λ a. IsDecided c.hold_id (on_fetch h w c a d)) (sym cleared.fetched) timely))
