-- ===== src/Motor/Ready.antt =====
-- motor.py: an order for which every gate stands open reaches the broker.
use Prim.Native.Char.{Char, code}
use text.Mathlib.TextLemmas.{cons-append}
use Prim.Native.String.{◌++◌}
use agentic_fintech_ecosyste.Prelude.{
  ℕ, ◌≤◌, String, Option, none, some, List, ◌∷◌, ◌≡◌, ◌⊎◌, inl, inr, refl, arith, true, false,
  contains, str_eq, eq_iff, Bool-cases, ◌∙◌, ap,
}
use agentic_fintech_ecosyste.Money.{Finite}
use agentic_fintech_ecosyste.Motor.Models.{AttestedOrder, direct}
use agentic_fintech_ecosyste.Motor.Attestation.{evaluate_attestation}
use agentic_fintech_ecosyste.Motor.Halt.{KillSwitch, is_halted}
use agentic_fintech_ecosyste.Motor.Halt.Sticky.{demands}
use agentic_fintech_ecosyste.Motor.Limits.{Store, fresh, claim, compute_notional, try_reserve}
use agentic_fintech_ecosyste.Motor.Router.{VenueObservation}
use agentic_fintech_ecosyste.Motor.World.{Parts, Motor, known, ReleaseReply, World}
use agentic_fintech_ecosyste.Motor.Pipeline.{
  trusted_quote_price, timing_reason, Precheck, go, check_notional, check_order, precheck, submit,
  on_reply,
}
use agentic_fintech_ecosyste.Motor.Gate.{gate}
use agentic_fintech_ecosyste.Motor.Reports.{request_of}
use agentic_fintech_ecosyste.Motor.Send.{call, IsReleased}
use agentic_fintech_ecosyste.Motor.Execute.{
  signal_key, order_key, Gate, pass, reserve, claim_order, claim_and_reserve, release_and_submit,
  after_gate, at_venue, after_precheck, chosen_venue, route_and_send, run,
}

first_code : String → ℕ
first_code String.[] = 0
first_code (String.◌∷◌ c s) = code c

first_code-append : (c : Char) (s t : String) → first_code (String.◌∷◌ c s ++ t) ≡ code c
unfolding first_code
first_code-append c s t = rw (cons-append c s t)

keys_differ : (a b : String) → str_eq (order_key a) (signal_key b) ≡ false
unfolding order_key signal_key first_code
keys_differ a b = elim (Bool-cases (str_eq (order_key a) (signal_key b))) [
  | inl e ↦
      let heads : first_code ("order:" ++ a) ≡ first_code ("signal:" ++ b) =
        ap first_code ((eq_iff (order_key a) (signal_key b)).0 e) in
      let o : first_code ("order:" ++ a) ≡ code "o" = first_code-append "o" "rder:" a in
      let g : first_code ("signal:" ++ b) ≡ code "s" = first_code-append "s" "ignal:" b in
      absurd (omega arith)
  | inr e ↦ e
]

module _ (p : Parts) (w : World) (attested : AttestedOrder) (ref : Option Finite) where
  -- Each gate is open to the order: it would be let through by itself.
  pub record IsReady (m : Motor) (venue : String) (n : ℕ) : Type 0 where
    pub not_halted : m.kill.halted ≡ false
    pub first_clear : demands w.first_signal ≡ false
    pub last_clear : demands w.last_signal ≡ false
    pub id_signed : attested.order.order_id ≡ attested.order.signal_id
    pub attestation : evaluate_attestation p.verifier attested ≡ none
    pub short_permitted :
        (str_eq attested.attestation.attested_side "SELL_SHORT" ≡ false)
        ⊎ (p.config.allow_short_selling ≡ true)
    pub timing : timing_reason p.config attested w.received ≡ none
    pub algo : attested.order.algo ≡ direct
    pub notional :
        compute_notional attested.order (trusted_quote_price p.config w.quote w.received) ≡ some n
    pub under_cap : n ≤ p.config.max_order_notional
    pub stats : String → List VenueObservation
    pub stats_known : w.stats ≡ known stats
    pub routed : chosen_venue p w attested ref stats ≡ some venue
    pub new_signal : contains (signal_key attested.order.signal_id) m.store.seen ≡ false
    pub new_order : contains (order_key attested.order.order_id) m.store.seen ≡ false
    pub signal_durable : w.durable (signal_key attested.order.signal_id) ≡ true
    pub order_durable : w.durable (order_key attested.order.order_id) ≡ true
    pub granted : (try_reserve p.config.max_session_notional n m.reserved).0 ≡ true
    pub released : IsReleased p w attested ref w.release_check

  -- The claims that the order makes.
  abbrev pub after_signal : Motor → Store
  after_signal m =
      (claim (w.durable (signal_key attested.order.signal_id)) (signal_key attested.order.signal_id)
        m.store).1

  abbrev pub after_claims : Motor → Store
  after_claims m =
      (claim (w.durable (order_key attested.order.order_id)) (order_key attested.order.order_id)
        (after_signal m)).1

  -- The state in which the broker is called.
  abbrev pub at_call : Motor → String → ℕ → Motor
  at_call m venue n = record {
    kill = m.kill;
    store = after_claims m;
    reserved = (try_reserve p.config.max_session_notional n m.reserved).1;
    sent = call p w attested ref venue ∷ m.sent;
  }

  module _ (m : Motor) (venue : String) (n : ℕ) (r : IsReady m venue n) where
    check_order_ready : check_order p w attested ref ≡ go n
    unfolding check_order check_notional
    check_order_ready = ground (arith, eq_iff attested.order.order_id attested.order.signal_id)

    precheck_ready : precheck p w attested ref m.kill ≡ (go n, m.kill)
    unfolding precheck is_halted
    precheck_ready = ground (arith, check_order_ready)

    signal_fresh :
        (claim
          (w.durable (signal_key attested.order.signal_id))
          (signal_key attested.order.signal_id)
          m.store).0
        ≡ fresh
    unfolding claim
    signal_fresh = ground arith

    order_fresh :
        (claim
          (w.durable (order_key attested.order.order_id))
          (order_key attested.order.order_id)
          (after_signal m)).0
        ≡ fresh
    unfolding claim contains
    order_fresh = ground (arith, keys_differ attested.order.order_id attested.order.signal_id)

    gate_ready : gate p w attested ref n m ≡ (
      pass,
      record m {
        store = after_claims m;
        reserved = (try_reserve p.config.max_session_notional n m.reserved).1;
      },
    )
    unfolding claim_and_reserve claim_order reserve
    gate_ready = ground (arith, signal_fresh, order_fresh)

    submit_ready :
        (s : Store) (reserved : ℕ)
        → submit p w attested ref venue n (record m { store = s; reserved = reserved })
          ≡ on_reply p w attested ref venue n
              (w.broker venue (request_of attested.order))
              (record m {
                store = s;
                reserved = reserved;
                sent = call p w attested ref venue ∷ m.sent;
              })
    unfolding submit is_halted
    submit_ready s reserved = ground arith

    release_ready :
        (s : Store) (reserved : ℕ)
        → release_and_submit p w attested ref w.release_check n venue
            (record m { store = s; reserved = reserved })
          ≡ submit p w attested ref venue n (record m { store = s; reserved = reserved })
    release_ready s reserved = by_reply w.release_check r.released
      where
        by_reply :
            (reply : ReleaseReply)
            → IsReleased p w attested ref reply
            → release_and_submit p w attested ref reply n venue
                (record m { store = s; reserved = reserved })
              ≡ submit p w attested ref venue n (record m { store = s; reserved = reserved })
        by_reply reply IsReleased.unchecked = unfold release_and_submit in refl
        by_reply reply IsReleased.checked = unfold release_and_submit in refl

    at_venue_ready :
        at_venue p w attested ref (some venue) n m
        ≡ on_reply p w attested ref venue n
            (w.broker venue (request_of attested.order))
            (at_call m venue n)
    unfolding at_venue after_gate
    at_venue_ready =
        ap (λ (x : Gate × Motor). after_gate p w attested ref x.0 n venue x.1) gate_ready
        ∙ release_ready (after_claims m) (at_call m venue n).reserved
        ∙ submit_ready (after_claims m) (at_call m venue n).reserved

    route_ready :
        route_and_send p w attested ref w.stats n m ≡ at_venue p w attested ref (some venue) n m
    unfolding route_and_send
    route_ready =
        ap (λ x. route_and_send p w attested ref x n m) r.stats_known
        ∙ ap (λ x. at_venue p w attested ref x n m) r.routed

    -- The run of an order that every gate lets through is the broker's reply, handled.
    pub run_ready :
        run p w attested ref m
        ≡ on_reply p w attested ref venue n
            (w.broker venue (request_of attested.order))
            (at_call m venue n)
    unfolding run after_precheck
    run_ready =
        ap
          (λ (x : Precheck × KillSwitch).
            after_precheck p w attested ref x.0 (record m { kill = x.1 }))
          precheck_ready
        ∙ route_ready
        ∙ at_venue_ready
