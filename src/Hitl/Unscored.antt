-- ===== src/Hitl/Unscored.antt =====
-- service.py of hitl_backend: sessions without the unscored mode, in which no approval is resolved.
use mathlib.Core.Path.{subst}
use mathlib.Core.Bool.{false≢true}
use agentic_fintech_ecosyste.Prelude.{
  false, List, [], ◌∷◌, ◌≡◌, inl, inr, refl, sym, ◌∙◌, All, Bool-cases,
}
use agentic_fintech_ecosyste.Hitl.Python.{Reply, answers, fails}
use agentic_fintech_ecosyste.Hitl.Holds.{Decision}
use agentic_fintech_ecosyste.Hitl.Decide.{
  ResolveRequest, ExecuteRequest, Effect, audited, resolved, relayed, Desk,
}
use agentic_fintech_ecosyste.Hitl.Service.{Hitl, resolve_request}
use agentic_fintech_ecosyste.Hitl.Orderly.{IsOrderly}
use agentic_fintech_ecosyste.Hitl.Asks.{resolutions}
use agentic_fintech_ecosyste.Hitl.Session.{Call, step, session, step-Steps, session-IsOrderly}

-- A call of `resolve` that rejects.
abbrev pub Rejects : ResolveRequest × Reply Decision → Type 0
Rejects x = x.0.approve ≡ false

-- The calls of the motor.
unfoldable pub relays : List Effect → List ExecuteRequest
relays [] = []
relays (audited event sub attempt ∷ rest) = relays rest
relays (resolved r answer ∷ rest) = relays rest
relays (relayed e ∷ rest) = e ∷ relays rest

step-Rejects :
    (h : Hitl) (call : Call) (d : Desk)
    → h.policy.unscored_dev ≡ false
    → All Rejects (resolutions d.trail)
    → All Rejects (resolutions (step h call d).trail)
unfolding resolve_request
step-Rejects h call d scored all = elim (step-Steps h call d) [
  | inl (calls, finals) ↦ subst (All Rejects) (sym calls) all
  | inr (request, parsed, cleared, (asked, closes)) ↦ elim (Bool-cases request.approve) [
    | inl approve ↦ absurd (false≢true (sym scored ∙ (cleared.approvable approve).unscored))
    | inr reject ↦ subst (All Rejects) (sym asked) (reject, all)
  ]
]

session-Rejects :
    (h : Hitl) (calls : List Call) (d : Desk)
    → h.policy.unscored_dev ≡ false
    → All Rejects (resolutions d.trail)
    → All Rejects (resolutions (session h calls d).trail)
unfolding session
session-Rejects h [] d scored all = all
session-Rejects h (call ∷ rest) d scored all =
    session-Rejects h rest (step h call d) scored (step-Rejects h call d scored all)

-- The motor is sent nothing when nothing was approved.
relays-none :
    (trail : List Effect) → IsOrderly trail → All Rejects (resolutions trail) → relays trail ≡ []
unfolding relays resolutions
relays-none [] o all = refl
relays-none (audited event sub attempt ∷ rest) o all = relays-none rest o all
relays-none (resolved r answer ∷ rest) (announced, o) (reject, all) = relays-none rest o all
relays-none (relayed e ∷ []) o all = absurd o.0
relays-none (relayed e ∷ (audited event sub attempt ∷ rest)) o all = absurd o.0
relays-none (relayed e ∷ (resolved r (fails why) ∷ rest)) o all = absurd o.0
relays-none (relayed e ∷ (relayed e' ∷ rest)) o all = absurd o.0
relays-none (relayed e ∷ resolved r (answers result) ∷ rest) ((approve, same, approved), o)
      (reject, all) =
    absurd (false≢true (sym reject ∙ approve))

-- Without the unscored mode, whatever requests arrive and whatever the world answers, every call
-- that asks Aegis to resolve a hold rejects it, and the execution motor is sent nothing.
pub session_never_approves :
    (h : Hitl) (calls : List Call) (d : Desk)
    → h.policy.unscored_dev ≡ false
    → d.trail ≡ []
    → All Rejects (resolutions (session h calls d).trail) × (relays (session h calls d).trail ≡ [])
unfolding resolutions
session_never_approves h calls d scored start =
    let all : All Rejects (resolutions (session h calls d).trail) =
      session-Rejects h calls d scored (subst (λ t. All Rejects (resolutions t)) (sym start) tt) in
    (
      all,
      relays-none (session h calls d).trail
          (session-IsOrderly h calls d (subst IsOrderly (sym start) tt)) all,
    )
