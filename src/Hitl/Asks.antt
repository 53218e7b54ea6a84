-- ===== src/Hitl/Asks.antt =====
-- service.py of hitl_backend: what one request asks of Aegis, and under which conditions.
use agentic_fintech_ecosyste.Prelude.{
  ℕ, String, true, false, ltb, Option, none, some, List, [], ◌∷◌, ◌≡◌, ◌⊎◌, inl, inr, refl, sym, ap,
  ◌∙◌, arith, str_eq, eq_iff, ◌&&◌, if-of, Bool-cases,
}
use mathlib.Core.Path.{subst}
use agentic_fintech_ecosyste.Sharp.Json.{Json}
use agentic_fintech_ecosyste.Hitl.Python.{
  ℤ, at_most, minus, Reply, answers, fails, ApiError, Result, ok, err,
}
use agentic_fintech_ecosyste.Hitl.Holds.{Held, Decision}
use agentic_fintech_ecosyste.Hitl.Body.{is_hold_id}
use agentic_fintech_ecosyste.Hitl.Decide.{
  Policy, ResolveRequest, Effect, audited, resolved, relayed, World, Desk, lookup, is_some, logged,
  audit, hitl_status, approve_error, required,
}
use agentic_fintech_ecosyste.Hitl.Service.{
  Hitl, Case, is_approver, is_final, relay_release, finish, with_execution, settle, on_resolution,
  resolve, resolve_request, attempt_of, expired, on_checks, checks, with_held, on_fetch,
  decide_locked, conclude, remember, with_lock, decide_parsed,
}

-- The calls of `resolve`, with Aegis's answers.
unfoldable pub resolutions : List Effect → List (ResolveRequest × Reply Decision)
resolutions [] = []
resolutions (audited event sub attempt ∷ rest) = resolutions rest
resolutions (resolved r answer ∷ rest) = (r, answer) ∷ resolutions rest
resolutions (relayed e ∷ rest) = resolutions rest

-- A decided hold becomes final when Aegis answers, and only then.
abbrev pub Closes : Reply Decision → String → List (String × Json) → List (String × Json) → Type 0
Closes (fails e) hold_id finals later = later ≡ finals
Closes (answers result) hold_id finals later = (hold : Json) × (later ≡ (hold_id, hold) ∷ finals)

-- An approval needs one approver, the unscored mode, and a wait that is long enough.
pub record IsApprovable (pol : Policy) (held : Held) (now : ℤ) : Type 0 where
  pub single : ltb 1 (required pol held) ≡ false
  pub unscored : pol.unscored_dev ≡ true
  pub cooled : pol.cooling && pol.too_soon (minus now held.decision.decided_at_ns) ≡ false

-- What holds when Aegis is asked to resolve a hold.
pub record IsCleared (h : Hitl) (w : World) (c : Case) (d : Desk) : Type 0 where
  pub held : Held
  pub fetched : w.held ≡ answers held
  pub approver : c.operator.role ≡ "approver"
  pub undecided : is_some (lookup c.hold_id d.finals) ≡ false
  pub signal_valid : at_most held.signal.valid_until_ns w.now ≡ false
  pub hold_valid : at_most held.decision.hold_expires_at_ns w.now ≡ false
  pub approvable : c.request.approve ≡ true → IsApprovable h.policy held w.now

abbrev pub IsAsked : Hitl → World → Case → Desk → Desk → Type 0
IsAsked h w c d d' =
    let r = resolve_request h.policy c in
    (resolutions d'.trail ≡ (r, w.resolution r) ∷ resolutions d.trail)
    × Closes (w.resolution r) c.hold_id d.finals d'.finals

-- Aegis is not asked and nothing becomes final, or Aegis is asked once, on a cleared hold.
abbrev pub Asks : Hitl → World → Case → Desk → Desk → Type 0
Asks h w c d d' =
    ((resolutions d'.trail ≡ resolutions d.trail) × (d'.finals ≡ d.finals))
    ⊎ (IsCleared h w c d × IsAsked h w c d d')

-- The same, from a hold that was fetched.
abbrev AsksOf : Hitl → World → Case → Held → Desk → Desk → Type 0
AsksOf h w c held d d' =
    ((resolutions d'.trail ≡ resolutions d.trail) × (d'.finals ≡ d.finals))
    ⊎ ((at_most held.signal.valid_until_ns w.now ≡ false)
        × (at_most held.decision.hold_expires_at_ns w.now ≡ false)
        × (c.request.approve ≡ true → IsApprovable h.policy held w.now)
        × IsAsked h w c d d')

-- The later desk has the same calls of Aegis and the same final decisions.
abbrev pub Keeps : Desk → Desk → Type 0
Keeps d d' = (resolutions d'.trail ≡ resolutions d.trail) × (d'.finals ≡ d.finals)

approve_error-IsApprovable :
    (pol : Policy) (held : Held) (now : ℤ)
    → approve_error pol held now ≡ none
    → IsApprovable pol held now
unfolding approve_error
approve_error-IsApprovable pol held now e = record {
  single = ground arith;
  unscored = ground arith;
  cooled = ground arith;
}

module _ (h : Hitl) (w : World) (c : Case) where
  audit-Keeps : (event : String) (d : Desk) → Keeps d (audit w event c.operator (attempt_of c) d)
  unfolding audit resolutions
  audit-Keeps event d = if-of (λ (x : Desk). Keeps d x) (w.accepts event) (refl, refl) (refl, refl)

  Finished : Desk → Result Json × Desk → Type 0
  Finished d x =
      (resolutions x.1.trail ≡ resolutions d.trail)
      × ((hold : Json) × (x.1.finals ≡ (c.hold_id, hold) ∷ d.finals))

  finish-Finished :
      (hold : Json) (d before : Desk) → Keeps before d → Finished before (finish h w c hold d)
  unfolding finish Finished
  finish-Finished hold d before (same_calls, same_finals) =
      let (calls, finals) =
        audit-Keeps "hitl.decision.result" (record d { finals = (c.hold_id, hold) ∷ d.finals }) in
      (calls ∙ same_calls, (hold, finals ∙ ap (λ f. (c.hold_id, hold) ∷ f) same_finals))

  relay_release-Keeps :
      (held : Held) (result : Decision) (d : Desk) → Keeps d (relay_release h w c held result d).1
  unfolding relay_release resolutions
  relay_release-Keeps held result d =
      if-of (λ (x : Json × Desk). Keeps d x.1) h.relay (refl, refl) (refl, refl)

  settle-Finished :
      (held : Held) (result : Decision) (d : Desk) → Finished d (settle h w c held result d)
  unfolding settle with_execution
  settle-Finished held result d =
      if-of (Finished d) (str_eq (hitl_status result.decision c.request.approve) "APPROVED")
        (finish-Finished _ _ d (relay_release-Keeps held result d))
        (finish-Finished _ d d (refl, refl))

  on_resolution-Closes :
      (held : Held) (answer : Reply Decision) (d : Desk)
      → (resolutions (on_resolution h w c held answer d).1.trail ≡ resolutions d.trail)
        × Closes answer c.hold_id d.finals (on_resolution h w c held answer d).1.finals
  unfolding on_resolution Finished
  on_resolution-Closes held (fails e) d = (refl, refl)
  on_resolution-Closes held (answers result) d = settle-Finished held result d

  resolve-Asks :
      (held : Held) (d : Desk)
      → Keeps d (resolve h w c held d).1 ⊎ IsAsked h w c d (resolve h w c held d).1
  unfolding resolve resolutions
  resolve-Asks held d =
      let r = resolve_request h.policy c in
      let asked = record (logged "hitl.decision.attempt" c.operator (attempt_of c) d) {
        trail =
            resolved r (w.resolution r)
            ∷ audited "hitl.decision.attempt" c.operator.sub (attempt_of c)
            ∷ d.trail;
      } in
      let (calls, finals) = on_resolution-Closes held (w.resolution r) asked in
      if-of (λ (x : Result Json × Desk). Keeps d x.1 ⊎ IsAsked h w c d x.1)
        (w.accepts "hitl.decision.attempt") (inr (calls, finals)) (inl (refl, refl))

  on_checks-Asks :
      (held : Held) (found : Option ApiError) (d : Desk)
      → Keeps d (on_checks h w c held found d).1
        ⊎ ((found ≡ none) × IsAsked h w c d (on_checks h w c held found d).1)
  unfolding on_checks
  on_checks-Asks held (some e) d = inl (refl, refl)
  on_checks-Asks held none d = elim (resolve-Asks held d) [
    | inl kept ↦ inl kept
    | inr asked ↦ inr (refl, asked)
  ]

  checks-IsApprovable :
      (held : Held)
      → checks h w c held ≡ none
      → c.request.approve ≡ true
      → IsApprovable h.policy held w.now
  checks-IsApprovable held clear approve =
      approve_error-IsApprovable h.policy held w.now (ground arith)

  with_held-Asks : (held : Held) (d : Desk) → AsksOf h w c held d (with_held h w c held d).1
  unfolding with_held expired
  with_held-Asks held d = elim (Bool-cases (expired h w c held)) [
    | inl late ↦ rw late (inl (refl, refl))
    | inr timely ↦ rw timely (elim (on_checks-Asks held (checks h w c held) d) [
      | inl kept ↦ inl kept
      | inr (clear, asked) ↦ inr (ground arith, ground arith, checks-IsApprovable held clear, asked)
    ])
  ]

  on_fetch-Asks :
      (answer : Reply Held) (d : Desk)
      → w.held ≡ answer
      → is_approver c ≡ true
      → is_final c d ≡ false
      → Asks h w c d (on_fetch h w c answer d).1
  unfolding on_fetch
  on_fetch-Asks (fails e) d same role fresh = inl (refl, refl)
  on_fetch-Asks (answers held) d same role fresh = elim (with_held-Asks held d) [
    | inl kept ↦ inl kept
    | inr (signal, hold, approvable, asked) ↦ inr (
      record {
        held = held;
        fetched = same;
        approver = (eq_iff c.operator.role "approver").0 role;
        undecided = fresh;
        signal_valid = signal;
        hold_valid = hold;
        approvable = approvable;
      },
      asked,
    )
  ]

  decide_locked-Asks : (d : Desk) → Asks h w c d (decide_locked h w c d).1
  unfolding decide_locked
  decide_locked-Asks d = elim (Bool-cases (is_approver c)) [
    | inr viewer ↦ rw viewer (inl (refl, refl))
    | inl role ↦ rw role (elim (Bool-cases (is_final c d)) [
      | inl final ↦ rw final (inl (refl, refl))
      | inr fresh ↦ rw fresh (on_fetch-Asks w.held d refl role fresh)
    ])
  ]

  -- What follows keeps the calls and the final decisions.
  then-Asks : (d d' d'' : Desk) → Keeps d' d'' → Asks h w c d d' → Asks h w c d d''
  then-Asks d d' d'' (calls, finals) (inl (calls', finals')) =
      inl (calls ∙ calls', finals ∙ finals')
  then-Asks d d' d'' (calls, finals) (inr (cleared, (asked, closes))) =
      let r = resolve_request h.policy c in
      inr (
        cleared,
        (
          calls ∙ asked,
          subst (λ f. Closes (w.resolution r) c.hold_id d.finals f) (sym finals) closes,
        ),
      )

  conclude-Keeps : (r : Result Json) (d : Desk) → Keeps d (conclude h w c r d).1
  unfolding conclude
  conclude-Keeps (ok hold) d = (refl, refl)
  conclude-Keeps (err e) d =
      if-of (Keeps d) (str_eq e.code "audit_unavailable") (refl, refl)
        (audit-Keeps "hitl.decision.denied" d)

  remember-Keeps : (reply : ℕ × Json) (d : Desk) → Keeps d (remember h w c (reply, d)).1
  unfolding remember
  remember-Keeps reply d = if-of (Keeps d) (ltb reply.0 500) (refl, refl) (refl, refl)

  with_lock-Asks :
      (cached : Option (ℕ × Json)) (d : Desk) → Asks h w c d (with_lock h w c cached d).1
  unfolding with_lock resolutions
  with_lock-Asks (some reply) d =
      if-of (λ (x : Result (ℕ × Json) × Desk). Asks h w c d x.1)
        (w.accepts "hitl.decision.replayed") (inl (refl, refl)) (inl (refl, refl))
  with_lock-Asks none d =
      let (r, d') = decide_locked h w c d in
      let (reply, d'') = conclude h w c r d' in
      then-Asks d d'' (remember h w c (reply, d'')).1 (remember-Keeps reply d'')
        (then-Asks d d' d'' (conclude-Keeps r d') (decide_locked-Asks d))

  -- A request with a parsed body asks Aegis to resolve at most one hold, and then the operator is
  -- an approver, the hold has no final decision, it was fetched and neither its signal nor the hold
  -- has expired; an approval needs one approver, the unscored mode and a wait that is long enough.
  -- The hold becomes final exactly when Aegis answers.
  pub decide_parsed-Asks : (d : Desk) → Asks h w c d (decide_parsed h w c d).1
  unfolding decide_parsed
  decide_parsed-Asks d =
      if-of (λ (x : Result (ℕ × Json) × Desk). Asks h w c d x.1) (is_hold_id c.hold_id)
        (with_lock-Asks _ d) (inl (refl, refl))
