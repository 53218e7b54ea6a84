-- ===== src/Sharp/Promotion.antt =====
-- models.py of afe_sharp: what a history that is reported as promoted contains.
use mathlib.Core.List.{◌++◌ as append}
use agentic_fintech_ecosyste.Prelude.{
  String, some, List, [], ◌∷◌, ◌≡◌, ◌≢◌, refl, arith, map, ap, ◌∙◌,
}
use agentic_fintech_ecosyste.Sharp.Json.{Library}
use agentic_fintech_ecosyste.Sharp.Models.{
  Stage, draft, compliance, legal, backtest, risk, canary, promoted, rejected, next_stage, Event,
  Approval, ProposalRecord, ok,
}
use agentic_fintech_ecosyste.Sharp.Fold.{AuditLookup, fold}
use agentic_fintech_ecosyste.Sharp.Reached.{Reached, submitted, approved, refused, fold-IsAccepted}

-- The stages that a state other than a rejection has passed.
abbrev pub passed : Stage → List Stage
passed draft = []
passed compliance = compliance ∷ []
passed legal = compliance ∷ legal ∷ []
passed backtest = compliance ∷ legal ∷ backtest ∷ []
passed risk = compliance ∷ legal ∷ backtest ∷ risk ∷ []
passed canary = compliance ∷ legal ∷ backtest ∷ risk ∷ canary ∷ []
passed promoted = compliance ∷ legal ∷ backtest ∷ risk ∷ canary ∷ promoted ∷ []
passed rejected = []

passed-next :
    (s t : Stage) → next_stage s ≡ some t → (passed t ≡ append (passed s) (t ∷ [])) × (s ≢ rejected)
passed-next draft t h = ground arith
passed-next compliance t h = ground arith
passed-next legal t h = ground arith
passed-next backtest t h = ground arith
passed-next risk t h = ground arith
passed-next canary t h = ground arith
passed-next promoted t h = ground arith
passed-next rejected t h = ground arith

stages-append :
    (done : List Approval) (a : Approval)
    → map (λ (b : Approval). b.stage) (append done (a ∷ []))
      ≡ append (map (λ (b : Approval). b.stage) done) (a.stage ∷ [])
stages-append [] a = refl
stages-append (b ∷ done) a = ap (λ l. b.stage ∷ l) (stages-append done a)

Reached-passed :
    {lib : Library} {submitter : String} {s : Stage} {done : List Approval} {signers : List String}
    → Reached lib submitter s done signers
    → s ≢ rejected
    → map (λ (a : Approval). a.stage) done ≡ passed s
Reached-passed submitted live = refl
Reached-passed (approved a who r following at named other new) live =
    let next = (passed-next _ _ following).0 in
    let alive = (passed-next _ _ following).1 in
    cc (stages-append _ a, Reached-passed r alive, at, next)
Reached-passed (refused r nt) live = absurd (live refl)

-- A history that is reported as promoted has exactly six approvals, of the six stages in order.
pub fold_promoted :
    (lib : Library) (events : List Event) (audit : AuditLookup) (r : ProposalRecord)
    → fold lib events audit ≡ ok r
    → r.state ≡ promoted
    → map (λ (a : Approval). a.stage) r.approvals
      ≡ compliance ∷ legal ∷ backtest ∷ risk ∷ canary ∷ promoted ∷ []
fold_promoted lib events audit r h done =
    let live : r.state ≢ rejected = λ e. cc (done, e) in
    Reached-passed (fold-IsAccepted lib events audit r h).reached live ∙ ap passed done
