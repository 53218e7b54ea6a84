-- ===== src/Hitl/Replay.antt =====
-- service.py of hitl_backend: the cache of replies, and its keys.

use mathlib.Core.Path.{subst}
use agentic_fintech_ecosyste.Prelude.{
  ℕ, String, true, not, Option, none, some, List, [], ◌∷◌, ◌≡◌, inl, inr, refl, sym, ap, ◌∙◌, arith,
  str_eq, eq_refl, eq_iff, ltb, false, All, if-of, Bool-cases,
}
use agentic_fintech_ecosyste.Sharp.Json.{Json}
use agentic_fintech_ecosyste.Hitl.Python.{Reply, answers, fails, ApiError, Result, ok, err}
use agentic_fintech_ecosyste.Hitl.Holds.{Held, Decision}
use agentic_fintech_ecosyste.Hitl.Body.{Request, is_hold_id}
use agentic_fintech_ecosyste.Hitl.Session.{Call, step, session}
use agentic_fintech_ecosyste.Hitl.Decide.{World, Desk, lookup, logged, audit, hitl_status}
use agentic_fintech_ecosyste.Hitl.Service.{
  Hitl, Case, is_approver, is_final, relay_release, finish, with_execution, settle, on_resolution,
  resolve, attempt_of, expired, on_checks, checks, with_held, on_fetch, decide_locked, conclude,
  remember, with_lock, decide_parsed, on_body, decide, key_of,
}

-- A reply whose outcome is known.
abbrev pub IsKnown : String × (ℕ × Json) → Type 0
IsKnown (key, reply) = ltb reply.0 500 ≡ true

module _ (h : Hitl) (w : World) (c : Case) where
  Same : Desk → Desk → Type 0
  Same d d' = d'.replies ≡ d.replies

  audit-Same : (event : String) (d : Desk) → Same d (audit w event c.operator (attempt_of c) d)
  unfolding audit Same
  audit-Same event d = if-of (Same d) (w.accepts event) refl refl

  finish-Same :
      (hold : Json) (d before : Desk) → Same before d → Same before (finish h w c hold d).1
  unfolding finish Same
  finish-Same hold d before same = audit-Same _ _ ∙ same

  settle-Same : (held : Held) (result : Decision) (d : Desk) → Same d (settle h w c held result d).1
  unfolding settle with_execution relay_release Same
  settle-Same held result d =
      if-of (λ (x : Result Json × Desk). Same d x.1)
        (str_eq (hitl_status result.decision c.request.approve) "APPROVED")
        (finish-Same _ _ d (if-of (λ (x : Json × Desk). Same d x.1) h.relay refl refl))
        (finish-Same _ d d refl)

  on_resolution-Same :
      (held : Held) (answer : Reply Decision) (d before : Desk)
      → Same before d
      → Same before (on_resolution h w c held answer d).1
  unfolding on_resolution Same
  on_resolution-Same held (fails e) d before same = same
  on_resolution-Same held (answers result) d before same = settle-Same held result d ∙ same

  on_checks-Same :
      (held : Held) (found : Option ApiError) (d : Desk) → Same d (on_checks h w c held found d).1
  unfolding on_checks resolve Same
  on_checks-Same held (some e) d = refl
  on_checks-Same held none d =
      if-of (λ (x : Result Json × Desk). Same d x.1) (w.accepts "hitl.decision.attempt")
        (on_resolution-Same held _ _ d refl) refl

  on_fetch-Same : (answer : Reply Held) (d : Desk) → Same d (on_fetch h w c answer d).1
  unfolding on_fetch with_held Same
  on_fetch-Same (fails e) d = refl
  on_fetch-Same (answers held) d =
      if-of (λ (x : Result Json × Desk). Same d x.1) (expired h w c held) refl
        (on_checks-Same held (checks h w c held) d)

  decide_locked-Same : (d : Desk) → Same d (decide_locked h w c d).1
  unfolding decide_locked Same
  decide_locked-Same d =
      if-of (λ (x : Result Json × Desk). Same d x.1) (not (is_approver c)) refl
        (if-of (λ (x : Result Json × Desk). Same d x.1) (is_final c d) refl
          (on_fetch-Same w.held d))

  conclude-Same :
      (r : Result Json) (d before : Desk) → Same before d → Same before (conclude h w c r d).1
  unfolding conclude Same
  conclude-Same (ok hold) d before same = same
  conclude-Same (err e) d before same =
      if-of (Same before) (str_eq e.code "audit_unavailable") same (audit-Same _ d ∙ same)

  remember-IsKnown :
      (reply : ℕ × Json) (d : Desk)
      → All IsKnown d.replies
      → All IsKnown (remember h w c (reply, d)).1.replies
  unfolding remember
  remember-IsKnown reply d all = elim (Bool-cases (ltb reply.0 500)) [
    | inl known ↦ rw known (known, all)
    | inr unknown ↦ rw unknown all
  ]

  with_lock-IsKnown :
      (cached : Option (ℕ × Json)) (d : Desk)
      → All IsKnown d.replies
      → All IsKnown (with_lock h w c cached d).1.replies
  unfolding with_lock Same
  with_lock-IsKnown (some reply) d all =
      if-of (λ (x : Result (ℕ × Json) × Desk). All IsKnown x.1.replies)
        (w.accepts "hitl.decision.replayed") all all
  with_lock-IsKnown none d all =
      let (r, d') = decide_locked h w c d in
      let (reply, d'') = conclude h w c r d' in
      remember-IsKnown reply d''
        (subst (All IsKnown) (sym (conclude-Same r d' d (decide_locked-Same d))) all)

  -- A request keeps that the outcome of every cached reply is known.
  pub decide_parsed-IsKnown :
      (d : Desk) → All IsKnown d.replies → All IsKnown (decide_parsed h w c d).1.replies
  unfolding decide_parsed
  decide_parsed-IsKnown d all =
      if-of (λ (x : Result (ℕ × Json) × Desk). All IsKnown x.1.replies) (is_hold_id c.hold_id)
        (with_lock-IsKnown _ d all) all

  -- A reply with a known outcome is in the cache afterwards, under the operator and the request id.
  with_lock-lookup :
      (cached : Option (ℕ × Json)) (d : Desk) (reply : ℕ × Json)
      → lookup (key_of c.operator.sub c.request.request_id) d.replies ≡ cached
      → (with_lock h w c cached d).0 ≡ ok reply
      → ltb reply.0 500 ≡ true
      → lookup (key_of c.operator.sub c.request.request_id) (with_lock h w c cached d).1.replies
        ≡ some reply
  unfolding with_lock remember lookup
  with_lock-lookup (some r) d reply there e known =
      elim (Bool-cases (w.accepts "hitl.decision.replayed")) [
        | inl accepted ↦ rw accepted (there ∙ ap some (ground arith))
        | inr refused ↦ absurd (ground arith)
      ]
  with_lock-lookup none d reply there e known =
      let (r, d') = decide_locked h w c d in
      let (made, d'') = conclude h w c r d' in
      let same : made ≡ reply = ground arith in
      let known' : ltb made.0 500 ≡ true = subst (λ x. ltb x.0 500 ≡ true) (sym same) known in
      let self = eq_refl (key_of c.operator.sub c.request.request_id) in
      rw known' (rw self (ap some same))

-- Later requests leave a cached reply where it is.
module _ (key : String) (reply : ℕ × Json) where
  HasReply : Desk → Type 0
  HasReply d = lookup key d.replies ≡ some reply

  remember-HasReply :
      (h : Hitl) (w : World) (c : Case) (made : ℕ × Json) (d : Desk)
      → str_eq key (key_of c.operator.sub c.request.request_id) ≡ false
      → HasReply d
      → HasReply (remember h w c (made, d)).1
  unfolding remember HasReply lookup
  remember-HasReply h w c made d other there =
      if-of (λ (x : Desk). HasReply x) (ltb made.0 500) (rw other there) there

  -- The reply is not cached under the key of a request that finds nothing there.
  key-differs :
      (own : String) (d : Desk) → lookup own d.replies ≡ none → HasReply d → str_eq key own ≡ false
  unfolding HasReply
  key-differs own d missing there = elim (Bool-cases (str_eq key own)) [
    | inl same ↦
        let found : lookup own d.replies ≡ some reply =
          subst (λ k. lookup k d.replies ≡ some reply) ((eq_iff key own).0 same) there in
        absurd (ground (arith, missing, found))
    | inr differs ↦ differs
  ]

  with_lock-HasReply :
      (h : Hitl) (w : World) (c : Case) (cached : Option (ℕ × Json)) (d : Desk)
      → lookup (key_of c.operator.sub c.request.request_id) d.replies ≡ cached
      → HasReply d
      → HasReply (with_lock h w c cached d).1
  unfolding with_lock HasReply Same
  with_lock-HasReply h w c (some found) d here there =
      if-of (λ (x : Result (ℕ × Json) × Desk). HasReply x.1) (w.accepts "hitl.decision.replayed")
        there there
  with_lock-HasReply h w c none d missing there =
      let (r, d') = decide_locked h w c d in
      let (made, d'') = conclude h w c r d' in
      remember-HasReply h w c made d'' (key-differs _ d missing there) (
        subst (λ l. lookup key l ≡ some reply)
          (sym (conclude-Same h w c r d' d (decide_locked-Same h w c d))) there)

  decide_parsed-HasReply :
      (h : Hitl) (w : World) (c : Case) (d : Desk) → HasReply d → HasReply (decide_parsed h w c d).1
  unfolding decide_parsed
  decide_parsed-HasReply h w c d there =
      if-of (λ (x : Result (ℕ × Json) × Desk). HasReply x.1) (is_hold_id c.hold_id)
        (with_lock-HasReply h w c _ d refl there) there

  on_body-HasReply :
      (h : Hitl) (call : Call) (r : Result Request) (d : Desk)
      → HasReply d
      → HasReply (on_body h call.world call.operator call.hold_id r d).1
  unfolding on_body
  on_body-HasReply h call (err e) d there = there
  on_body-HasReply h call (ok request) d there = decide_parsed-HasReply h call.world _ d there

  session-HasReply :
      (h : Hitl) (calls : List Call) (d : Desk) → HasReply d → HasReply (session h calls d)
  unfolding session decide
  session-HasReply h [] d there = there
  session-HasReply h (call ∷ rest) d there =
      session-HasReply h rest (step h call d) (on_body-HasReply h call _ d there)

on_body-IsKnown :
    (h : Hitl) (call : Call) (r : Result Request) (d : Desk)
    → All IsKnown d.replies
    → All IsKnown (on_body h call.world call.operator call.hold_id r d).1.replies
unfolding on_body
on_body-IsKnown h call (err e) d all = all
on_body-IsKnown h call (ok request) d all = decide_parsed-IsKnown h call.world _ d all

-- The service never caches a reply whose outcome is unknown (a status from 500), whatever requests
-- arrive and whatever the world answers.
pub session-IsKnown :
    (h : Hitl) (calls : List Call) (d : Desk)
    → All IsKnown d.replies
    → All IsKnown (session h calls d).replies
unfolding session decide
session-IsKnown h [] d all = all
session-IsKnown h (call ∷ rest) d all =
    session-IsKnown h rest (step h call d) (on_body-IsKnown h call _ d all)

-- Once a request was answered with a known outcome, then after any session of other requests a
-- request of the same operator with that request id and a well-formed hold id gets the same answer,
-- whatever hold, decision and reason it names, and changes nothing but the audit log, if that takes
-- the record of the replay.
pub decide_parsed_replays :
    (h : Hitl) (w : World) (c : Case) (d : Desk) (reply : ℕ × Json) (calls : List Call) (w' : World)
    (c' : Case)
    → (decide_parsed h w c d).0 ≡ ok reply
    → ltb reply.0 500 ≡ true
    → c'.operator.sub ≡ c.operator.sub
    → c'.request.request_id ≡ c.request.request_id
    → is_hold_id c'.hold_id ≡ true
    → w'.accepts "hitl.decision.replayed" ≡ true
    → let later = session h calls (decide_parsed h w c d).1 in
      decide_parsed h w' c' later
      ≡ (ok reply, logged "hitl.decision.replayed" c'.operator (attempt_of c') later)
unfolding decide_parsed with_lock HasReply
decide_parsed_replays h w c d reply calls w' c' e known same_sub same_id well_formed accepted =
    let key = key_of c.operator.sub c.request.request_id in
    elim (Bool-cases (is_hold_id c.hold_id)) [
      | inl named ↦
          let e' : (with_lock h w c (lookup key d.replies) d).0 ≡ ok reply = ground arith in
          let there = with_lock-lookup h w c _ d reply refl e' known in
          let first : lookup key (decide_parsed h w c d).1.replies ≡ some reply = rw named there in
          let kept = session-HasReply key reply h calls (decide_parsed h w c d).1 first in
          rw well_formed (rw same_sub (rw same_id (rw kept (rw accepted refl))))
      | inr unnamed ↦ absurd (ground arith)
    ]
