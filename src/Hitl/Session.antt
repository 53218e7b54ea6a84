-- ===== src/Hitl/Session.antt =====
-- service.py of hitl_backend: sessions of requests, in the order in which they take the lock.
use mathlib.Core.Path.{subst}
use mathlib.Core.Bool.{false≢true}
use agentic_fintech_ecosyste.Prelude.{
  ℕ, suc, ◌<◌, ◌≤◌, String, Bool, true, false, List, [], ◌∷◌, ◌≡◌, ◌⊎◌, inl, inr, refl, sym, ◌∙◌,
  arith, str_eq, eq_iff, eq_refl, if◌then◌else◌, Bool-cases, ℕ-cases,
}
use agentic_fintech_ecosyste.Sharp.Json.{Json}
use agentic_fintech_ecosyste.Hitl.Python.{Reply, answers, fails, Result, ok, err}
use agentic_fintech_ecosyste.Hitl.Holds.{Decision}
use agentic_fintech_ecosyste.Hitl.Body.{Request, parse_body}
use agentic_fintech_ecosyste.Hitl.Decide.{Operator, ResolveRequest, World, Desk, lookup, is_some}
use agentic_fintech_ecosyste.Hitl.Service.{Hitl, Case, resolve_request, on_body, decide}
use agentic_fintech_ecosyste.Hitl.Orderly.{IsOrderly, decide-IsOrderly}
use agentic_fintech_ecosyste.Hitl.Asks.{
  resolutions, Closes, IsCleared, IsAsked, Keeps, decide_parsed-Asks,
}

-- A request, with what the world answers to it.
pub record Call : Type 0 where
  pub world : World
  pub operator : Operator
  pub hold_id : String
  pub body : Json

abbrev pub step : Hitl → Call → Desk → Desk
step h call d = (decide h call.world call.operator call.hold_id call.body d).1

unfoldable pub session : Hitl → List Call → Desk → Desk
session h [] d = d
session h (call ∷ rest) d = session h rest (step h call d)

-- Whatever requests arrive, and whatever Aegis, the motor, the audit log and the clock answer,
-- Aegis is asked to resolve a hold only right after the attempt to do so was written to the audit
-- log, and the execution motor is sent a decision only right after Aegis approved its release.
pub session-IsOrderly :
    (h : Hitl) (calls : List Call) (d : Desk)
    → IsOrderly d.trail
    → IsOrderly (session h calls d).trail
unfolding session
session-IsOrderly h [] d o = o
session-IsOrderly h (call ∷ rest) d o =
    session-IsOrderly h rest (step h call d)
      (decide-IsOrderly h call.world call.operator call.hold_id call.body d o)

abbrev case_of : Call → Request → Case
case_of call request = record {
  operator = call.operator;
  hold_id = call.hold_id;
  request = request;
}

-- What a request asks, for a body that parses.
abbrev Steps : Hitl → Call → Desk → Desk → Type 0
Steps h call d d' =
    Keeps d d'
    ⊎ ((request : Request) × (parse_body h.python call.body ≡ ok request)
        × IsCleared h call.world (case_of call request) d
        × IsAsked h call.world (case_of call request) d d')

on_body-Steps :
    (h : Hitl) (call : Call) (r : Result Request) (d : Desk)
    → parse_body h.python call.body ≡ r
    → Steps h call d (on_body h call.world call.operator call.hold_id r d).1
unfolding on_body
on_body-Steps h call (err e) d same = inl (refl, refl)
on_body-Steps h call (ok request) d same =
    elim (decide_parsed-Asks h call.world (case_of call request) d) [
      | inl kept ↦ inl kept
      | inr (cleared, asked) ↦ inr (request, same, cleared, asked)
    ]

pub step-Steps : (h : Hitl) (call : Call) (d : Desk) → Steps h call d (step h call d)
unfolding decide
step-Steps h call d = on_body-Steps h call _ d refl

is_answer : String → ResolveRequest × Reply Decision → Bool
is_answer id (r, answers result) = str_eq r.hold_id id
is_answer id (r, fails e) = false

-- How often Aegis answered a request to resolve this hold; a call that failed is not counted.
unfoldable pub answered : String → List (ResolveRequest × Reply Decision) → ℕ
unfolding is_answer
answered id [] = 0
answered id (x ∷ rest) = if is_answer id x then suc (answered id rest) else answered id rest

str_eq_comm-false : (s t : String) → str_eq s t ≡ false → str_eq t s ≡ false
str_eq_comm-false s t e = elim (Bool-cases (str_eq t s)) [
  | inl same ↦ absurd (false≢true (sym e ∙ (eq_iff s t).1 (sym ((eq_iff t s).0 same))))
  | inr differs ↦ differs
]

-- Aegis answered at most one request to resolve the hold, and then it is final.
abbrev IsSingleAt : String → List (ResolveRequest × Reply Decision) → List (String × Json) → Type 0
IsSingleAt id calls finals =
    (answered id calls ≤ 1) × (0 < answered id calls → is_some (lookup id finals) ≡ true)

none_answered :
    (id : String) (calls : List (ResolveRequest × Reply Decision)) (finals : List (String × Json))
    → IsSingleAt id calls finals
    → is_some (lookup id finals) ≡ false
    → answered id calls ≡ 0
none_answered id calls finals (once, final) fresh = elim (ℕ-cases (answered id calls)) [
  | inl zero_calls ↦ zero_calls
  | inr some_call ↦ absurd (false≢true (sym fresh ∙ final some_call))
]

resolved-IsSingleAt :
    (r : ResolveRequest) (result : Decision) (calls : List (ResolveRequest × Reply Decision))
    (finals : List (String × Json)) (hold : Json) (id : String)
    → is_some (lookup r.hold_id finals) ≡ false
    → IsSingleAt id calls finals
    → IsSingleAt id ((r, answers result) ∷ calls) ((r.hold_id, hold) ∷ finals)
unfolding answered is_answer lookup
resolved-IsSingleAt r result calls finals hold id fresh (once, final) =
    elim (Bool-cases (str_eq r.hold_id id)) [
      | inl same ↦
          let fresh' : is_some (lookup id finals) ≡ false =
            subst (λ k. is_some (lookup k finals) ≡ false) ((eq_iff r.hold_id id).0 same) fresh in
          let here : str_eq id r.hold_id ≡ true =
            subst (λ k. str_eq id k ≡ true) (sym ((eq_iff r.hold_id id).0 same)) (eq_refl id) in
          (ground arith, λ some_call. rw here refl)
      | inr differs ↦
          let elsewhere : str_eq id r.hold_id ≡ false = str_eq_comm-false r.hold_id id differs in
          (ground arith, λ some_call. rw elsewhere (final (ground arith)))
    ]

Closes-IsSingleAt :
    (r : ResolveRequest) (answer : Reply Decision) (calls : List (ResolveRequest × Reply Decision))
    (finals later : List (String × Json)) (id : String)
    → is_some (lookup r.hold_id finals) ≡ false
    → Closes answer r.hold_id finals later
    → IsSingleAt id calls finals
    → IsSingleAt id ((r, answer) ∷ calls) later
unfolding answered is_answer
Closes-IsSingleAt r (fails e) calls finals later id fresh same single =
    subst (IsSingleAt id calls) (sym same) single
Closes-IsSingleAt r (answers result) calls finals later id fresh (hold, grown) single =
    subst (IsSingleAt id ((r, answers result) ∷ calls)) (sym grown)
      (resolved-IsSingleAt r result calls finals hold id fresh single)

step-IsSingleAt :
    (h : Hitl) (call : Call) (d : Desk) (id : String)
    → IsSingleAt id (resolutions d.trail) d.finals
    → IsSingleAt id (resolutions (step h call d).trail) (step h call d).finals
unfolding resolve_request
step-IsSingleAt h call d id single = elim (step-Steps h call d) [
  | inl (calls, finals) ↦
      subst (λ l. IsSingleAt id l (step h call d).finals) (sym calls)
        (subst (IsSingleAt id (resolutions d.trail)) (sym finals) single)
  | inr (request, parsed, cleared, (asked, closes)) ↦
      subst (λ l. IsSingleAt id l (step h call d).finals) (sym asked)
        (Closes-IsSingleAt (resolve_request h.policy (case_of call request)) _ _ d.finals _ id
          cleared.undecided closes single)
]

session-IsSingleAt :
    (h : Hitl) (calls : List Call) (d : Desk) (id : String)
    → IsSingleAt id (resolutions d.trail) d.finals
    → IsSingleAt id (resolutions (session h calls d).trail) (session h calls d).finals
unfolding session
session-IsSingleAt h [] d id single = single
session-IsSingleAt h (call ∷ rest) d id single =
    session-IsSingleAt h rest (step h call d) id (step-IsSingleAt h call d id single)

-- A call of `resolve` for the hold is made only while no earlier one for it was answered.
abbrev pub AsksWhileOpen : String → List (ResolveRequest × Reply Decision) → Type 0
AsksWhileOpen id [] = Unit
AsksWhileOpen id ((r, answer) ∷ earlier) =
    (r.hold_id ≡ id → answered id earlier ≡ 0) × AsksWhileOpen id earlier

step-AsksWhileOpen :
    (h : Hitl) (call : Call) (d : Desk) (id : String)
    → IsSingleAt id (resolutions d.trail) d.finals
    → AsksWhileOpen id (resolutions d.trail)
    → AsksWhileOpen id (resolutions (step h call d).trail)
unfolding resolve_request
step-AsksWhileOpen h call d id single unanswered = elim (step-Steps h call d) [
  | inl (calls, finals) ↦ subst (AsksWhileOpen id) (sym calls) unanswered
  | inr (request, parsed, cleared, (asked, closes)) ↦ subst (AsksWhileOpen id) (sym asked) (
    λ same.
        let fresh : is_some (lookup id d.finals) ≡ false =
          subst (λ k. is_some (lookup k d.finals) ≡ false) same cleared.undecided in
        none_answered id (resolutions d.trail) d.finals single fresh,
    unanswered,
  )
]

session-AsksWhileOpen :
    (h : Hitl) (calls : List Call) (d : Desk) (id : String)
    → IsSingleAt id (resolutions d.trail) d.finals
    → AsksWhileOpen id (resolutions d.trail)
    → AsksWhileOpen id (resolutions (session h calls d).trail)
unfolding session
session-AsksWhileOpen h [] d id single unanswered = unanswered
session-AsksWhileOpen h (call ∷ rest) d id single unanswered =
    session-AsksWhileOpen h rest (step h call d) id (step-IsSingleAt h call d id single)
      (step-AsksWhileOpen h call d id single unanswered)

-- From a service that has called nothing, whatever requests arrive and whatever the world answers,
-- Aegis is asked to resolve a hold only while it has answered no earlier request to resolve it, so
-- that it answers at most one. A request that failed, whose outcome is not known, may be made again.
pub session_resolves_once :
    (h : Hitl) (calls : List Call) (d : Desk) (id : String)
    → d.trail ≡ []
    → AsksWhileOpen id (resolutions (session h calls d).trail)
      × (answered id (resolutions (session h calls d).trail) ≤ 1)
unfolding answered resolutions
session_resolves_once h calls d id start =
    let none_yet : answered id (resolutions d.trail) ≡ 0 =
      subst (λ t. answered id (resolutions t) ≡ 0) (sym start) refl in
    let single : IsSingleAt id (resolutions d.trail) d.finals =
      (ground arith, λ some_call. absurd (ground arith)) in
    (
      session-AsksWhileOpen h calls d id single
          (subst (λ t. AsksWhileOpen id (resolutions t)) (sym start) tt),
      (session-IsSingleAt h calls d id single).0,
    )
