-- ===== src/Motor/Room.antt =====
-- motor.py: the session's reservations stay under their cap through every step of `execute`.
use agentic_fintech_ecosyste.Prelude.{
  ℕ, ◌≤◌, ◌<◌, String, Option, none, some, arith, Bool-cases, inl, inr,
}
use agentic_fintech_ecosyste.Money.{Finite, precision_limit}
use agentic_fintech_ecosyste.Motor.Models.{AttestedOrder}
use agentic_fintech_ecosyste.Motor.Halt.{is_halted}
use agentic_fintech_ecosyste.Motor.Limits.{release}
use agentic_fintech_ecosyste.Motor.Limits.Ledger.{try_reserve-le-cap, release_le}
use agentic_fintech_ecosyste.Motor.World.{
  Parts, Motor, StatsReply, known, fails, ReleaseReply, not_given, passes, refuses, breaks, World,
  BrokerReply, Outcome, returns, raises,
}
use agentic_fintech_ecosyste.Motor.Pipeline.{
  Precheck, go, stop, precheck, submit, on_reply, from_broker, unknown, accept,
}
use agentic_fintech_ecosyste.Motor.Gate.{gate}
use agentic_fintech_ecosyste.Motor.Execute.{
  Gate, pass, refuse, break, reserve, claim_order, claim_and_reserve, release_and_submit,
  after_gate, at_venue, after_precheck, route_and_send, run, conclude, execute,
}

module _ (p : Parts) (w : World) (attested : AttestedOrder) (ref : Option Finite)
    (small : p.config.max_session_notional < precision_limit) where
  -- The reservations of `m` are under the cap.
  abbrev Fits : Motor → Type 0
  Fits m = m.reserved ≤ p.config.max_session_notional

  freed :
      (n reserved : ℕ) → reserved ≤ p.config.max_session_notional → release n reserved ≤ reserved
  freed n reserved h = release_le n reserved (omega (arith, small))

  on_reply-Fits :
      (venue : String) (n : ℕ) (reply : BrokerReply) (m : Motor)
      → Fits m
      → Fits (on_reply p w attested ref venue n reply m).1
  unfolding on_reply from_broker unknown accept
  on_reply-Fits venue n reply m h = ground (arith, freed n m.reserved h)

  submit-Fits :
      (venue : String) (n : ℕ) (m : Motor) → Fits m → Fits (submit p w attested ref venue n m).1
  unfolding submit
  submit-Fits venue n m h = elim (Bool-cases (is_halted w.last_signal m.kill).0) [
    | inl halted ↦ rw halted (omega (arith, freed n m.reserved h))
    | inr clear ↦ rw clear (on_reply-Fits venue n _ _ h)
  ]

  release_and_submit-Fits :
      (reply : ReleaseReply) (n : ℕ) (venue : String) (m : Motor)
      → Fits m
      → Fits (release_and_submit p w attested ref reply n venue m).1
  unfolding release_and_submit
  release_and_submit-Fits not_given n venue m h = submit-Fits venue n m h
  release_and_submit-Fits passes n venue m h = submit-Fits venue n m h
  release_and_submit-Fits (refuses detail) n venue m h = omega (arith, freed n m.reserved h)
  release_and_submit-Fits (breaks name) n venue m h = h

  after_gate-Fits :
      (g : Gate) (n : ℕ) (venue : String) (m : Motor)
      → Fits m
      → Fits (after_gate p w attested ref g n venue m).1
  unfolding after_gate
  after_gate-Fits pass n venue m h = release_and_submit-Fits w.release_check n venue m h
  after_gate-Fits (refuse report) n venue m h = h
  after_gate-Fits (break name) n venue m h = h

  gate-Fits : (n : ℕ) (m : Motor) → Fits m → Fits (gate p w attested ref n m).1
  unfolding claim_and_reserve claim_order reserve
  gate-Fits n m h = ground (arith, try_reserve-le-cap p.config.max_session_notional n m.reserved h)

  at_venue-Fits :
      (chosen : Option String) (n : ℕ) (m : Motor)
      → Fits m
      → Fits (at_venue p w attested ref chosen n m).1
  unfolding at_venue
  at_venue-Fits none n m h = h
  at_venue-Fits (some venue) n m h =
      let (g, m') = gate p w attested ref n m in after_gate-Fits g n venue m' (gate-Fits n m h)

  route_and_send-Fits :
      (reply : StatsReply) (n : ℕ) (m : Motor)
      → Fits m
      → Fits (route_and_send p w attested ref reply n m).1
  unfolding route_and_send
  route_and_send-Fits (fails name) n m h = h
  route_and_send-Fits (known stats) n m h = at_venue-Fits _ n m h

  after_precheck-Fits :
      (pre : Precheck) (m : Motor) → Fits m → Fits (after_precheck p w attested ref pre m).1
  unfolding after_precheck
  after_precheck-Fits (stop report) m h = h
  after_precheck-Fits (go n) m h = route_and_send-Fits w.stats n m h

  conclude-Fits : (o : Outcome) (m : Motor) → Fits m → Fits (conclude p w attested ref (o, m)).1
  unfolding conclude
  conclude-Fits (returns report) m h = h
  conclude-Fits (raises name) m h = h

  pub execute-Fits : (m : Motor) → Fits m → Fits (execute p w attested ref m).1
  unfolding execute run
  execute-Fits m h =
      let (pre, k) = precheck p w attested ref m.kill in
      let (o, m') = after_precheck p w attested ref pre (record m { kill = k }) in
      conclude-Fits o m' (after_precheck-Fits pre (record m { kill = k }) h)
