-- ===== src/Sharp/Reached.antt =====
-- models.py of afe_sharp: which histories `fold` accepts.
use mathlib.Core.Path.{subst}
use mathlib.Core.List.{◌++◌ as append}
use agentic_fintech_ecosyste.Prelude.{
  ℕ, zero, suc, ◌||◌, String, true, false, Option, none, some, List, [], ◌∷◌, ◌≡◌, inl, inr, refl,
  arith, str_eq, length, contains, Option-cases, Bool-cases, sym, ap, ◌∙◌,
}
use agentic_fintech_ecosyste.Sharp.Json.{Library}
use agentic_fintech_ecosyste.Sharp.Models.{
  Stage, draft, compliance, legal, backtest, risk, canary, promoted, rejected, rank, is_from,
  same_stage, is_terminal, next_stage, normalise_identity, Event, Approval, Proposal,
  ProposalRecord, Result, ok, err,
}
use agentic_fintech_ecosyste.Sharp.Stored.{stored_proposal, approval}
use agentic_fintech_ecosyste.Sharp.Fold.{
  AuditLookup, Progress, initial, fold_approved, fold_rejected, fold_event, fold_rest, conclude,
  fold, signed,
}

-- The states that a proposal may reach, with its approvals and the identities that signed them.
pub data Reached (lib : Library) (submitter : String)
    : Stage → List Approval → List String → Type 0 where
  submitted : Reached lib submitter draft [] []
  approved :
      {s t : Stage} {done : List Approval} {signers : List String} (a : Approval) (who : String)
      → Reached lib submitter s done signers
      → next_stage s ≡ some t
      → a.stage ≡ t
      → normalise_identity lib a.approver_id ≡ some who
      → str_eq who submitter ≡ false
      → contains who signers ≡ false
      → Reached lib submitter t (append done (a ∷ [])) (append signers (who ∷ []))
  refused :
      {s : Stage} {done : List Approval} {signers : List String}
      → Reached lib submitter s done signers
      → is_terminal s ≡ false
      → Reached lib submitter rejected done signers

abbrev stage_at : ℕ → Stage
stage_at zero = draft
stage_at (suc zero) = compliance
stage_at (suc (suc zero)) = legal
stage_at (suc (suc (suc zero))) = backtest
stage_at (suc (suc (suc (suc zero)))) = risk
stage_at (suc (suc (suc (suc (suc zero))))) = canary
stage_at (suc (suc (suc (suc (suc (suc zero)))))) = promoted
stage_at _ = rejected

stage_at-rank : (s : Stage) → stage_at (rank s) ≡ s
stage_at-rank draft = refl
stage_at-rank compliance = refl
stage_at-rank legal = refl
stage_at-rank backtest = refl
stage_at-rank risk = refl
stage_at-rank canary = refl
stage_at-rank promoted = refl
stage_at-rank rejected = refl

pub same_stage_eq : (a b : Stage) → same_stage a b ≡ true → a ≡ b
same_stage_eq a b h =
    let e : rank a ≡ rank b = ground arith in
    sym (stage_at-rank a) ∙ ap stage_at e ∙ stage_at-rank b

pub is_from_eq : (o : Option Stage) (s : Stage) → is_from o s ≡ true → o ≡ some s
is_from_eq none s h = ground arith
is_from_eq (some a) s h = ap some (same_stage_eq a s h)

-- `P` holds of a value that is returned.
abbrev pub OnOk {ℓ} : {A : Type ℓ} → (A → Type 0) → Result A → Type 0
OnOk P (ok a) = P a
OnOk P (err e) = Unit

module _ (lib : Library) (pid submitter : String) where
  -- The approval of an event names its stage and its actor.
  approval-OnOk :
      (e : Event)
      → OnOk (λ (a : Approval). (a.stage ≡ e.to_state) × (a.approver_id ≡ e.actor)) (approval lib e)
  unfolding approval
  approval-OnOk e = ground arith

  -- A progress that the relation reaches.
  abbrev IsReached : Progress → Type 0
  IsReached p = Reached lib submitter p.state p.approvals p.signers

  signed-IsReached :
      (p : Progress) (e : Event) (who : String) (answer : Result Approval)
      → OnOk (λ (a : Approval). (a.stage ≡ e.to_state) × (a.approver_id ≡ e.actor)) answer
      → is_from (next_stage p.state) e.to_state ≡ true
      → normalise_identity lib e.actor ≡ some who
      → str_eq who submitter ≡ false
      → contains who p.signers ≡ false
      → IsReached p
      → OnOk IsReached (signed lib pid submitter p e who answer)
  unfolding signed
  signed-IsReached p e who (err why) fields following named other new r = tt
  signed-IsReached p e who (ok a) fields following named other new r =
      approved a who r (is_from_eq (next_stage p.state) e.to_state following) fields.0
        (ap (normalise_identity lib) fields.1 ∙ named) other new

  fold_approved-IsReached :
      (p : Progress) (e : Event)
      → IsReached p
      → OnOk IsReached (fold_approved lib pid submitter p e)
  unfolding fold_approved
  fold_approved-IsReached p e r = elim (Bool-cases (is_from (next_stage p.state) e.to_state)) [
    | inr skips ↦ rw skips tt
    | inl following ↦ elim (Option-cases (normalise_identity lib e.actor)) [
      | inl no_name ↦ rw (following, no_name) tt
      | inr (who, named) ↦ elim (Bool-cases (str_eq who submitter || contains who p.signers)) [
        | inl barred ↦ rw (following, named, barred) tt
        | inr new ↦
            rw (following, named, new)
              (signed-IsReached p e who (approval lib e) (approval-OnOk e) following named
                (ground arith) (ground arith) r)
      ]
    ]
  ]

  fold_rejected-IsReached :
      (p : Progress) (e : Event)
      → e.to_state ≡ rejected
      → is_terminal p.state ≡ false
      → IsReached p
      → OnOk IsReached (fold_rejected lib pid submitter p e)
  unfolding fold_rejected
  fold_rejected-IsReached p e to live r = ground (arith, refused r live)

  fold_event-IsReached :
      (index : ℕ) (p : Progress) (e : Event)
      → IsReached p
      → OnOk IsReached (fold_event lib pid submitter index p e)
  unfolding fold_event
  fold_event-IsReached index p e r =
      let on_approved = fold_approved-IsReached p e r in
      let on_rejected : same_stage e.to_state rejected ≡ true
          → is_terminal p.state ≡ false
          → OnOk IsReached (fold_rejected lib pid submitter p e) =
        λ to live. fold_rejected-IsReached p e (same_stage_eq e.to_state rejected to) live r in
      ground arith

  fold_rest-IsReached :
      (index : ℕ) (p : Progress) (events : List Event)
      → IsReached p
      → OnOk IsReached (fold_rest lib pid submitter index p events)
  unfolding fold_rest
  fold_rest-IsReached index p [] r = r
  fold_rest-IsReached index p (e ∷ rest) r =
      after (fold_event lib pid submitter index p e) (fold_event-IsReached index p e r)
        (λ p' r'. fold_rest-IsReached (suc index) p' rest r')
    where
      after :
          (answer : Result Progress)
          → OnOk IsReached answer
          → ((p' : Progress)
              → IsReached p'
              → OnOk IsReached (fold_rest lib pid submitter (suc index) p' rest))
          → OnOk IsReached (elim answer [
            | err why ↦ err why
            | ok p' ↦ fold_rest lib pid submitter (suc index) p' rest
          ])
      after (err why) reached go = tt
      after (ok p') reached go = go p' reached

-- A record whose state, approvals and signers the relation reaches from its proposer.
pub record IsAccepted (lib : Library) (r : ProposalRecord) : Type 0 where
  pub submitter : String
  pub proposer : normalise_identity lib r.proposal.proposer_id ≡ some submitter
  pub signers : List String
  pub reached : Reached lib submitter r.state r.approvals signers

conclude-IsAccepted :
    (lib : Library) (events : List Event) (audit : AuditLookup) (proposal : Proposal) (p : Progress)
    (submitter : String)
    → normalise_identity lib proposal.proposer_id ≡ some submitter
    → Reached lib submitter p.state p.approvals p.signers
    → OnOk (IsAccepted lib) (conclude lib events audit proposal p)
unfolding conclude
conclude-IsAccepted lib events audit proposal p submitter named r =
    let accepted : IsAccepted lib (record {
      proposal = proposal;
      state = p.state;
      version = length events;
      approvals = p.approvals;
      rejected_by = p.rejected_by;
      rejection_reason = p.reason;
    }) =
      record { submitter = submitter; proposer = named; signers = p.signers; reached = r } in
    ground arith

-- What follows the loop, by how it ends.
rest-OnOk :
    (lib : Library) (events : List Event) (audit : AuditLookup) (proposal : Proposal)
    (submitter : String) (answer : Result Progress)
    → normalise_identity lib proposal.proposer_id ≡ some submitter
    → OnOk (λ (p : Progress). Reached lib submitter p.state p.approvals p.signers) answer
    → OnOk
        (IsAccepted lib)
        (elim answer [ err why ↦ err why | ok p ↦ conclude lib events audit proposal p ])
rest-OnOk lib events audit proposal submitter (err why) named r = tt
rest-OnOk lib events audit proposal submitter (ok p) named r =
    conclude-IsAccepted lib events audit proposal p submitter named r

fold-OnOk :
    (lib : Library) (events : List Event) (audit : AuditLookup)
    → OnOk (IsAccepted lib) (fold lib events audit)
unfolding fold
fold-OnOk lib [] audit = tt
fold-OnOk lib (first ∷ rest) audit =
    let body : (proposal : Proposal) (submitter : String)
        → normalise_identity lib proposal.proposer_id ≡ some submitter
        → OnOk (IsAccepted lib)
            (elim (fold_rest lib proposal.proposal_id submitter 2 initial rest) [
              | err why ↦ err why
              | ok p ↦ conclude lib (first ∷ rest) audit proposal p
            ]) =
      λ proposal submitter named.
        rest-OnOk lib (first ∷ rest) audit proposal submitter _ named (
          fold_rest-IsReached lib proposal.proposal_id submitter 2 initial rest
            Reached.submitted) in
    elim (Option-cases (stored_proposal lib first)) [
      | inl unusable ↦ ground arith
      | inr (proposal, stored) ↦ elim (Option-cases (normalise_identity lib proposal.proposer_id)) [
        | inl nameless ↦ ground arith
        | inr (submitter, named) ↦ let fits = body proposal submitter named in ground arith
      ]
    ]

-- A history that `fold` accepts is one of the promotion: its state is reached from the draft by
-- approvals, each of the next stage and by an identity that is neither the proposer's nor that of
-- an earlier approval, and by rejections of states that are not terminal.
pub fold-IsAccepted :
    (lib : Library) (events : List Event) (audit : AuditLookup) (r : ProposalRecord)
    → fold lib events audit ≡ ok r
    → IsAccepted lib r
fold-IsAccepted lib events audit r h = subst (OnOk (IsAccepted lib)) h (fold-OnOk lib events audit)
