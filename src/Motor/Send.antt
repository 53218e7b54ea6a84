-- ===== src/Motor/Send.antt =====
-- motor.py: when the broker is called. Each lemma is about one step of `_run`, the last theorem
-- about `execute`.
use agentic_fintech_ecosyste.Prelude.{
  ℕ, String, false, Option, none, some, List, ◌∷◌, ◌≡◌, ◌⊎◌, inl, inr, refl, arith, Bool-cases, ◌∙◌,
  ap, sym,
}
use agentic_fintech_ecosyste.Money.{Finite}
use agentic_fintech_ecosyste.Motor.Models.{AttestedOrder, BrokerOrderRequest}
use agentic_fintech_ecosyste.Motor.Halt.{KillSwitch, is_halted}
use agentic_fintech_ecosyste.Motor.Halt.Sticky.{demands, is_halted_iff}
use agentic_fintech_ecosyste.Motor.Router.{VenueObservation}
use agentic_fintech_ecosyste.Motor.World.{
  Parts, Motor, StatsReply, known, fails, ReleaseReply, not_given, passes, refuses, breaks, World,
  BrokerReply, Outcome,
}
use agentic_fintech_ecosyste.Motor.World.{returns, raises}
use agentic_fintech_ecosyste.Motor.Reports.{request_of}
use agentic_fintech_ecosyste.Motor.Pipeline.{
  Precheck, go, stop, precheck, submit, on_reply, from_broker, unknown, accept,
}
use agentic_fintech_ecosyste.Motor.Cleared.{IsCleared, precheck-IsCleared}
use agentic_fintech_ecosyste.Motor.Gate.{IsClaimed, gate, gate_keeps, gate-IsClaimed}
use agentic_fintech_ecosyste.Motor.Execute.{
  pass, Gate, refuse, break, release_and_submit, after_gate, at_venue, after_precheck, chosen_venue,
  route_and_send, run, conclude, execute,
}

module _ (p : Parts) (w : World) (attested : AttestedOrder) (ref : Option Finite) where
  -- The call of the broker that `venue` gets.
  abbrev pub call : String → String × BrokerOrderRequest
  call venue = (venue, request_of attested.order)

  on_reply_sent :
      (venue : String) (n : ℕ) (reply : BrokerReply) (m : Motor)
      → (on_reply p w attested ref venue n reply m).1.sent ≡ m.sent
  unfolding on_reply from_broker unknown accept
  on_reply_sent venue n reply m = ground arith

  -- One submission calls the broker once, or not at all when the second halt check fails.
  submit_sent :
      (venue : String) (n : ℕ) (m : Motor)
      → ((submit p w attested ref venue n m).1.sent ≡ m.sent)
        ⊎ (((submit p w attested ref venue n m).1.sent ≡ call venue ∷ m.sent)
            × ((is_halted w.last_signal m.kill).0 ≡ false))
  unfolding submit
  submit_sent venue n m = elim (Bool-cases (is_halted w.last_signal m.kill).0) [
    | inl halted ↦ inl (rw halted)
    | inr clear ↦ inr (rw clear (on_reply_sent venue n _ _), clear)
  ]

  -- The release check was not asked for, or passed.
  pub data IsReleased : ReleaseReply → Type 0 where
    unchecked : IsReleased not_given
    checked : IsReleased passes

  -- The last steps reach the broker, from a switch `k`.
  abbrev Reaches : KillSwitch → String → Motor → Motor → Type 0
  Reaches k venue m m' =
      (m'.sent ≡ m.sent)
      ⊎ ((m'.sent ≡ call venue ∷ m.sent)
          × ((is_halted w.last_signal k).0 ≡ false)
          × IsReleased w.release_check)

  release_and_submit_sent :
      (reply : ReleaseReply) (n : ℕ) (venue : String) (m : Motor)
      → reply ≡ w.release_check
      → Reaches m.kill venue m (release_and_submit p w attested ref reply n venue m).1
  unfolding release_and_submit
  release_and_submit_sent not_given n venue m e = elim (submit_sent venue n m) [
    | inl same ↦ inl same
    | inr (sent, clear) ↦ inr (sent, clear, rw (← e) unchecked)
  ]
  release_and_submit_sent passes n venue m e = elim (submit_sent venue n m) [
    | inl same ↦ inl same
    | inr (sent, clear) ↦ inr (sent, clear, rw (← e) checked)
  ]
  release_and_submit_sent (refuses detail) n venue m e = inl refl
  release_and_submit_sent (breaks name) n venue m e = inl refl

  after_gate_sent :
      (g : Gate) (n : ℕ) (venue : String) (m : Motor)
      → ((after_gate p w attested ref g n venue m).1.sent ≡ m.sent)
        ⊎ ((g ≡ pass) × Reaches m.kill venue m (after_gate p w attested ref g n venue m).1)
  unfolding after_gate
  after_gate_sent pass n venue m =
      inr (refl, release_and_submit_sent w.release_check n venue m refl)
  after_gate_sent (refuse report) n venue m = inl refl
  after_gate_sent (break name) n venue m = inl refl

  -- What holds of a call of `execute` from the state `m` that reaches the broker.
  pub record Sends (m : Motor) (venue : String) (n : ℕ) : Type 0 where
    pub not_halted : m.kill.halted ≡ false
    pub first_clear : demands w.first_signal ≡ false
    pub last_clear : demands w.last_signal ≡ false
    pub cleared : IsCleared p w attested n
    pub claimed : IsClaimed p attested n m
    pub released : IsReleased w.release_check
    pub stats : String → List VenueObservation
    pub stats_known : w.stats ≡ known stats
    pub routed : chosen_venue p w attested ref stats ≡ some venue

  at_venue_sent :
      (chosen : Option String) (n : ℕ) (m : Motor)
      → ((at_venue p w attested ref chosen n m).1.sent ≡ m.sent)
        ⊎ ((venue : String) × (chosen ≡ some venue)
            × ((at_venue p w attested ref chosen n m).1.sent ≡ call venue ∷ m.sent)
            × ((is_halted w.last_signal m.kill).0 ≡ false)
            × IsReleased w.release_check
            × IsClaimed p attested n m)
  unfolding at_venue
  at_venue_sent none n m = inl refl
  at_venue_sent (some venue) n m =
      let (g, m') = gate p w attested ref n m in
      let kept = gate_keeps p w attested ref n m in
      elim (after_gate_sent g n venue m') [
        | inl same ↦ inl (same ∙ kept.0)
        | inr (passed, inl same) ↦ inl (same ∙ kept.0)
        | inr (passed, inr (sent, clear, released)) ↦ inr (
          venue,
          refl,
          sent ∙ ap (λ l. call venue ∷ l) kept.0,
          ap (λ (k : KillSwitch). (is_halted w.last_signal k).0) (sym kept.1) ∙ clear,
          released,
          gate-IsClaimed p w attested ref n m passed,
        )
      ]

  route_and_send_sent :
      (reply : StatsReply) (n : ℕ) (m : Motor)
      → reply ≡ w.stats
      → ((route_and_send p w attested ref reply n m).1.sent ≡ m.sent)
        ⊎ ((venue : String) × (stats : String → List VenueObservation) × (w.stats ≡ known stats)
            × (chosen_venue p w attested ref stats ≡ some venue)
            × ((route_and_send p w attested ref reply n m).1.sent ≡ call venue ∷ m.sent)
            × ((is_halted w.last_signal m.kill).0 ≡ false)
            × IsReleased w.release_check
            × IsClaimed p attested n m)
  unfolding route_and_send
  route_and_send_sent (fails name) n m e = inl refl
  route_and_send_sent (known stats) n m e =
      elim (at_venue_sent (chosen_venue p w attested ref stats) n m) [
        | inl same ↦ inl same
        | inr (venue, routed, sent, clear, released, claimed) ↦
            inr (venue, stats, sym e, routed, sent, clear, released, claimed)
      ]

  after_precheck_sent :
      (pre : Precheck) (k : KillSwitch) (m : Motor)
      → pre ≡ (precheck p w attested ref m.kill).0
      → let m' = (after_precheck p w attested ref pre (record m { kill = k })).1 in
        (m'.sent ≡ m.sent)
        ⊎ ((venue : String) × (n : ℕ) × (m'.sent ≡ call venue ∷ m.sent) × Sends m venue n)
  unfolding after_precheck
  after_precheck_sent (stop report) k m e = inl refl
  after_precheck_sent (go n) k m e =
      elim (route_and_send_sent w.stats n (record m { kill = k }) refl) [
        | inl same ↦ inl same
        | inr (venue, stats, stats_known, routed, sent, clear, released, claimed) ↦
            let (first, cleared) = precheck-IsCleared p w attested ref m.kill n (sym e) in
            let before = (is_halted_iff w.first_signal m.kill).0 first in
            inr (
              venue,
              n,
              sent,
              record {
                not_halted = before.1;
                first_clear = before.0;
                last_clear = ((is_halted_iff w.last_signal k).0 clear).0;
                cleared = cleared;
                claimed = record {
                  new_signal = claimed.new_signal;
                  new_order = claimed.new_order;
                  granted = claimed.granted;
                };
                released = released;
                stats = stats;
                stats_known = stats_known;
                routed = routed;
              },
            )
      ]

  conclude_sent : (o : Outcome) (m : Motor) → (conclude p w attested ref (o, m)).1.sent ≡ m.sent
  unfolding conclude
  conclude_sent (returns report) m = refl
  conclude_sent (raises name) m = refl

  -- A call of `execute` does not reach the broker, or reaches it exactly once, at the router's
  -- venue with the request of this order. It does so only if the switch was not halted and the
  -- source demanded no halt at either check, the order passed every check of `_precheck`, neither
  -- key had been claimed, the session had room, and the release check passed or was not given.
  pub execute-Sends :
      (m : Motor)
      → ((execute p w attested ref m).1.sent ≡ m.sent)
        ⊎ ((venue : String) × (n : ℕ) × ((execute p w attested ref m).1.sent ≡ call venue ∷ m.sent)
            × Sends m venue n)
  unfolding execute run
  execute-Sends m =
      let (pre, k) = precheck p w attested ref m.kill in
      let (o, m') = after_precheck p w attested ref pre (record m { kill = k }) in
      let same = conclude_sent o m' in
      elim (after_precheck_sent pre k m refl) [
        | inl kept ↦ inl (same ∙ kept)
        | inr (venue, n, sent, sends) ↦ inr (venue, n, same ∙ sent, sends)
      ]
