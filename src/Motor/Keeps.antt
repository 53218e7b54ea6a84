-- ===== src/Motor/Keeps.antt =====
-- motor.py: what each step of `execute` does to the claims and to the ledger.
use agentic_fintech_ecosyste.Prelude.{
  ℕ, String, Option, none, some, ◌≡◌, ◌⊎◌, inl, inr, refl, arith, contains, true, Bool-cases, ap,
  ◌∙◌,
}
use agentic_fintech_ecosyste.Money.{Finite}
use agentic_fintech_ecosyste.Motor.Models.{AttestedOrder}
use agentic_fintech_ecosyste.Motor.Halt.{KillSwitch, is_halted}
use agentic_fintech_ecosyste.Motor.Limits.{Store}
use agentic_fintech_ecosyste.Motor.World.{
  Parts, Motor, StatsReply, known, fails, ReleaseReply, not_given, passes, refuses, breaks, World,
  BrokerReply, Outcome, returns, raises,
}
use agentic_fintech_ecosyste.Motor.Pipeline.{
  Precheck, go, stop, precheck, submit, on_reply, from_broker, unknown, accept,
}
use agentic_fintech_ecosyste.Motor.Gate.{gate, gate_seen, gate_marks}
use agentic_fintech_ecosyste.Motor.Execute.{
  signal_key, Gate, pass, refuse, break, release_and_submit, after_gate, at_venue, after_precheck,
  route_and_send, run, conclude, execute,
}

module _ (p : Parts) (w : World) (attested : AttestedOrder) (ref : Option Finite) where
  on_reply_store :
      (venue : String) (n : ℕ) (reply : BrokerReply) (m : Motor)
      → (on_reply p w attested ref venue n reply m).1.store ≡ m.store
  unfolding on_reply from_broker unknown accept
  on_reply_store venue n reply m = ground arith

  submit_store :
      (venue : String) (n : ℕ) (m : Motor) → (submit p w attested ref venue n m).1.store ≡ m.store
  unfolding submit
  submit_store venue n m = elim (Bool-cases (is_halted w.last_signal m.kill).0) [
    | inl halted ↦ rw halted
    | inr clear ↦ rw clear (on_reply_store venue n _ _)
  ]

  release_and_submit_store :
      (reply : ReleaseReply) (n : ℕ) (venue : String) (m : Motor)
      → (release_and_submit p w attested ref reply n venue m).1.store ≡ m.store
  unfolding release_and_submit
  release_and_submit_store not_given n venue m = submit_store venue n m
  release_and_submit_store passes n venue m = submit_store venue n m
  release_and_submit_store (refuses detail) n venue m = refl
  release_and_submit_store (breaks name) n venue m = refl

  after_gate_store :
      (g : Gate) (n : ℕ) (venue : String) (m : Motor)
      → (after_gate p w attested ref g n venue m).1.store ≡ m.store
  unfolding after_gate
  after_gate_store pass n venue m = release_and_submit_store w.release_check n venue m
  after_gate_store (refuse report) n venue m = refl
  after_gate_store (break name) n venue m = refl

  -- What `execute` leaves of a state `m`: the claims, or the claims of the order made as well.
  abbrev Claims : Motor → Motor → Type 0
  Claims m m' =
      ((m'.store ≡ m.store) × (m'.sent ≡ m.sent))
      ⊎ (((key : String) → contains key m.store.seen ≡ true → contains key m'.store.seen ≡ true)
          × (contains (signal_key attested.order.signal_id) m'.store.seen ≡ true))

  at_venue-Claims :
      (chosen : Option String) (n : ℕ) (m : Motor)
      → Claims m (at_venue p w attested ref chosen n m).1
  unfolding at_venue
  at_venue-Claims none n m = inl (refl, refl)
  at_venue-Claims (some venue) n m =
      let (g, m') = gate p w attested ref n m in
      let same = after_gate_store g n venue m' in
      inr (
        λ key h.
            ap (λ (s : Store). contains key s.seen) same ∙ gate_seen p w attested ref n m key h,
        ap (λ (s : Store). contains (signal_key attested.order.signal_id) s.seen) same
            ∙ gate_marks p w attested ref n m,
      )

  route_and_send-Claims :
      (reply : StatsReply) (n : ℕ) (m : Motor)
      → Claims m (route_and_send p w attested ref reply n m).1
  unfolding route_and_send
  route_and_send-Claims (fails name) n m = inl (refl, refl)
  route_and_send-Claims (known stats) n m = at_venue-Claims _ n m

  after_precheck-Claims :
      (pre : Precheck) (k : KillSwitch) (m : Motor)
      → Claims m (after_precheck p w attested ref pre (record m { kill = k })).1
  unfolding after_precheck
  after_precheck-Claims (stop report) k m = inl (refl, refl)
  after_precheck-Claims (go n) k m = route_and_send-Claims w.stats n (record m { kill = k })

  conclude-Claims :
      (o : Outcome) (m m' : Motor) → Claims m m' → Claims m (conclude p w attested ref (o, m')).1
  unfolding conclude
  conclude-Claims (returns report) m m' h = h
  conclude-Claims (raises name) m m' h = h

  pub execute-Claims : (m : Motor) → Claims m (execute p w attested ref m).1
  unfolding execute run
  execute-Claims m =
      let (pre, k) = precheck p w attested ref m.kill in
      let (o, m') = after_precheck p w attested ref pre (record m { kill = k }) in
      conclude-Claims o m m' (after_precheck-Claims pre k m)
