-- ===== src/Motor/Settled.antt =====
-- motor.py: how each step of `execute` ends, by the report that it returns.
use agentic_fintech_ecosyste.Prelude.{
  ℕ, String, Option, none, some, ◌≡◌, ◌≢◌, ◌⊎◌, inl, inr, refl, arith, true, Bool-cases,
}
use mathlib.Core.Path.{subst}
use agentic_fintech_ecosyste.Money.{Finite}
use agentic_fintech_ecosyste.Motor.Models.{
  AttestedOrder, ExecutionReport, ExecutionStatus, RejectReason, check_reason_matches_status,
}
use agentic_fintech_ecosyste.Motor.Attestation.{evaluate_attestation}
use agentic_fintech_ecosyste.Motor.Halt.{KillSwitch, halt, is_halted}
use agentic_fintech_ecosyste.Motor.World.{
  Parts, Motor, StatsReply, known, fails, ReleaseReply, not_given, passes, refuses, breaks, World,
  Outcome, returns, raises,
}
use agentic_fintech_ecosyste.Motor.Reports.{rejected, unknown_report, broker_report}
use agentic_fintech_ecosyste.Motor.Pipeline.{
  Precheck, go, stop, timing_reason, check_notional, check_order, precheck, submit, on_reply,
  from_broker, unknown, accept,
}
use agentic_fintech_ecosyste.Motor.Gate.{gate, gate_keeps}
use agentic_fintech_ecosyste.Motor.Execute.{
  Gate, pass, refuse, break, reserve, claim_order, claim_and_reserve, release_and_submit,
  after_gate, at_venue, after_precheck, route_and_send, run, conclude, execute,
}

-- A report that `_run` returns: its reason fits its status, it is no internal error, an unknown
-- outcome leaves the switch halted, and a rejection that is not the broker's sent nothing.
pub record IsSettled (m m' : Motor) (r : ExecutionReport) : Type 0 where
  pub valid : check_reason_matches_status r.status r.reject_reason ≡ true
  pub not_internal : r.reject_reason ≢ some RejectReason.internal_error
  pub unknown_halts : r.status ≡ ExecutionStatus.unknown → m'.kill.halted ≡ true
  pub unsent :
      (r.status ≢ ExecutionStatus.rejected)
      ⊎ (r.reject_reason ≡ some RejectReason.broker_rejected)
      ⊎ (m'.sent ≡ m.sent)

-- A rejection for a reason that is none of the last two.
abbrev IsPlain : RejectReason → Type 0
IsPlain why = why ≢ RejectReason.internal_error

module _ (p : Parts) (w : World) (attested : AttestedOrder) (ref : Option Finite) where
  rejected-IsSettled :
      (why : RejectReason) (detail : String) (venue : Option String) (at : ℕ) (m m' : Motor)
      → why ≢ RejectReason.internal_error
      → m'.sent ≡ m.sent
      → IsSettled m m' (rejected attested.order why detail w.received ref venue at)
  unfolding rejected
  rejected-IsSettled why detail venue at m m' plain same = record {
    valid = refl;
    not_internal = λ e. plain (ground arith);
    unknown_halts = λ e. ground arith;
    unsent = inr (inr same);
  }

  submit-IsSettled :
      (venue : String) (n : ℕ) (m : Motor) (r : ExecutionReport)
      → (submit p w attested ref venue n m).0 ≡ returns r
      → IsSettled m (submit p w attested ref venue n m).1 r
  unfolding submit on_reply from_broker unknown accept rejected unknown_report broker_report halt
  submit-IsSettled venue n m r e = record {
    valid = ground arith;
    not_internal = λ k. ground arith;
    unknown_halts = λ k. ground arith;
    unsent = ground arith;
  }

  -- A report of `_precheck` is a rejection, and not an internal error.
  check_order_stops :
      (r : ExecutionReport)
      → check_order p w attested ref ≡ stop r
      → (r.status ≡ ExecutionStatus.rejected)
        × (check_reason_matches_status r.status r.reject_reason ≡ true)
        × (r.reject_reason ≢ some RejectReason.internal_error)
  unfolding check_order check_notional rejected evaluate_attestation timing_reason
  check_order_stops r e = (ground arith, ground arith, λ k. ground arith)

  gate_refuses-IsSettled :
      (n : ℕ) (m : Motor) (r : ExecutionReport)
      → (gate p w attested ref n m).0 ≡ refuse r
      → IsSettled m (gate p w attested ref n m).1 r
  unfolding claim_and_reserve claim_order reserve rejected
  gate_refuses-IsSettled n m r e = record {
    valid = ground arith;
    not_internal = λ k. ground arith;
    unknown_halts = λ k. ground arith;
    unsent = ground arith;
  }

  release_and_submit-IsSettled :
      (reply : ReleaseReply) (n : ℕ) (venue : String) (m : Motor) (r : ExecutionReport)
      → (release_and_submit p w attested ref reply n venue m).0 ≡ returns r
      → IsSettled m (release_and_submit p w attested ref reply n venue m).1 r
  unfolding release_and_submit rejected
  release_and_submit-IsSettled not_given n venue m r e = submit-IsSettled venue n m r e
  release_and_submit-IsSettled passes n venue m r e = submit-IsSettled venue n m r e
  release_and_submit-IsSettled (refuses detail) n venue m r e = record {
    valid = ground arith;
    not_internal = λ k. ground arith;
    unknown_halts = λ k. ground arith;
    unsent = inr (inr refl);
  }
  release_and_submit-IsSettled (breaks name) n venue m r e = absurd (ground arith)

  after_gate-IsSettled :
      (g : Gate) (n : ℕ) (venue : String) (m m' : Motor) (r : ExecutionReport)
      → m'.sent ≡ m.sent
      → ((k : ExecutionReport) → g ≡ refuse k → IsSettled m m' k)
      → (after_gate p w attested ref g n venue m').0 ≡ returns r
      → IsSettled m (after_gate p w attested ref g n venue m').1 r
  unfolding after_gate
  after_gate-IsSettled pass n venue m m' r same refused e =
      let s = release_and_submit-IsSettled w.release_check n venue m' r e in
      record {
        valid = s.valid;
        not_internal = s.not_internal;
        unknown_halts = s.unknown_halts;
        unsent = ground (arith, s.unsent);
      }
  after_gate-IsSettled (refuse k) n venue m m' r same refused e =
      subst (λ (x : ExecutionReport). IsSettled m m' x) (ground arith) (refused k refl)
  after_gate-IsSettled (break name) n venue m m' r same refused e = absurd (ground arith)

  at_venue-IsSettled :
      (chosen : Option String) (n : ℕ) (m : Motor) (r : ExecutionReport)
      → (at_venue p w attested ref chosen n m).0 ≡ returns r
      → IsSettled m (at_venue p w attested ref chosen n m).1 r
  unfolding at_venue
  at_venue-IsSettled none n m r e =
      subst (λ (x : ExecutionReport). IsSettled m m x) (ground arith)
        (rejected-IsSettled RejectReason.no_eligible_venue "" none w.updated m m (λ k. ground arith)
          refl)
  at_venue-IsSettled (some venue) n m r e =
      let (g, m') = gate p w attested ref n m in
      after_gate-IsSettled g n venue m m' r (gate_keeps p w attested ref n m).0
        (λ k. gate_refuses-IsSettled n m k) e

  route_and_send-IsSettled :
      (reply : StatsReply) (n : ℕ) (m : Motor) (r : ExecutionReport)
      → (route_and_send p w attested ref reply n m).0 ≡ returns r
      → IsSettled m (route_and_send p w attested ref reply n m).1 r
  unfolding route_and_send
  route_and_send-IsSettled (fails name) n m r e = absurd (ground arith)
  route_and_send-IsSettled (known stats) n m r e = at_venue-IsSettled _ n m r e

  precheck_stops :
      (k : KillSwitch) (r : ExecutionReport)
      → (precheck p w attested ref k).0 ≡ stop r
      → (r.status ≡ ExecutionStatus.rejected)
        × (check_reason_matches_status r.status r.reject_reason ≡ true)
        × (r.reject_reason ≢ some RejectReason.internal_error)
  unfolding precheck rejected
  precheck_stops k r e = elim (Bool-cases (is_halted w.first_signal k).0) [
    | inl halted ↦ (ground arith, ground arith, λ j. ground arith)
    | inr clear ↦ check_order_stops r (ground arith)
  ]

  after_precheck-IsSettled :
      (pre : Precheck) (k : KillSwitch) (m : Motor) (r : ExecutionReport)
      → pre ≡ (precheck p w attested ref m.kill).0
      → (after_precheck p w attested ref pre (record m { kill = k })).0 ≡ returns r
      → IsSettled m (after_precheck p w attested ref pre (record m { kill = k })).1 r
  unfolding after_precheck
  after_precheck-IsSettled (stop report) k m r pre e =
      let (rejection, valid, plain) = precheck_stops m.kill r (ground arith) in
      record {
        valid = valid;
        not_internal = plain;
        unknown_halts = λ j. ground arith;
        unsent = inr (inr refl);
      }
  after_precheck-IsSettled (go n) k m r pre e =
      let s = route_and_send-IsSettled w.stats n (record m { kill = k }) r e in
      record {
        valid = s.valid;
        not_internal = s.not_internal;
        unknown_halts = s.unknown_halts;
        unsent = s.unsent;
      }

  -- What `execute` returns is a report that `_run` settled, or the report of an exception, after
  -- which the switch is halted.
  abbrev pub Concluded : Motor → ExecutionReport × Motor → Type 0
  Concluded m (r, m') =
      IsSettled m m' r
      ⊎ ((r.status ≡ ExecutionStatus.rejected)
          × (r.reject_reason ≡ some RejectReason.internal_error)
          × (m'.kill.halted ≡ true))

  conclude-Concluded :
      (o : Outcome) (m m' : Motor)
      → ((r : ExecutionReport) → o ≡ returns r → IsSettled m m' r)
      → Concluded m (conclude p w attested ref (o, m'))
  unfolding conclude rejected halt
  conclude-Concluded (returns r) m m' settled = inl (settled r refl)
  conclude-Concluded (raises name) m m' settled = inr (refl, refl, refl)

  pub execute-Concluded : (m : Motor) → Concluded m (execute p w attested ref m)
  unfolding execute run
  execute-Concluded m =
      let (pre, k) = precheck p w attested ref m.kill in
      let (o, m') = after_precheck p w attested ref pre (record m { kill = k }) in
      conclude-Concluded o m m' (λ r. after_precheck-IsSettled pre k m r refl)
