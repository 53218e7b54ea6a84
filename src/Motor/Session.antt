-- ===== src/Motor/Session.antt =====
-- motor.py over a session: any orders in any sequence, with any answers of the world.
use agentic_fintech_ecosyste.Prelude.{
  ℕ, ◌+◌, ◌≤◌, ◌<◌, String, Option, List, [], ◌∷◌, ◌≡◌, ◌⊎◌, inl, inr, refl, arith, contains, true,
  false, str_eq, eq_iff, if◌then◌else◌, Bool-cases, ap, sym, ◌∙◌, ltb,
}
use mathlib.Core.Path.{subst}
use agentic_fintech_ecosyste.Motor.Limits.{Store}
use agentic_fintech_ecosyste.Money.{Finite, precision_limit}
use agentic_fintech_ecosyste.Motor.Models.{Order, AttestedOrder, BrokerOrderRequest}
use agentic_fintech_ecosyste.Motor.World.{Parts, Motor, World}
use agentic_fintech_ecosyste.Motor.Reports.{request_of}
use agentic_fintech_ecosyste.Motor.Execute.{signal_key, execute}
use agentic_fintech_ecosyste.Motor.Send.{execute-Sends}
use agentic_fintech_ecosyste.Motor.Keeps.{execute-Claims}
use agentic_fintech_ecosyste.Motor.Verdicts.{execute_halted}
use agentic_fintech_ecosyste.Motor.Room.{execute-Fits}

-- One call of `execute`: what the world answers, the order, and the caller's reference price.
pub record Call : Type 0 where
  pub world : World
  pub attested : AttestedOrder
  pub reference_price : Option Finite

abbrev pub step : Parts → Call → Motor → Motor
step p c m = (execute p c.world c.attested c.reference_price m).1

unfoldable pub session : Parts → List Call → Motor → Motor
session p [] m = m
session p (c ∷ calls) m = session p calls (step p c m)

-- How often the broker was called for this client order id.
unfoldable pub sends_of : String → List (String × BrokerOrderRequest) → ℕ
sends_of id [] = 0
sends_of id ((venue, request) ∷ rest) =
    let others = sends_of id rest in
    if str_eq id request.client_order_id then others + 1 else others

-- No id was sent twice, and the signal of an id that was sent is claimed.
pub record IsSingleShot (m : Motor) : Type 0 where
  pub once : (id : String) → sends_of id m.sent ≤ 1
  pub claimed :
      (id : String) → 0 < sends_of id m.sent → contains (signal_key id) m.store.seen ≡ true

sends_of-cons :
    (id venue : String) (request : BrokerOrderRequest) (rest : List (String × BrokerOrderRequest))
    → (str_eq id request.client_order_id ≡ true
        → sends_of id ((venue, request) ∷ rest) ≡ sends_of id rest + 1)
      × (str_eq id request.client_order_id ≡ false
          → sends_of id ((venue, request) ∷ rest) ≡ sends_of id rest)
unfolding sends_of
sends_of-cons id venue request rest = (λ e. ground arith, λ e. ground arith)

-- A state that sent the same, with no claim forgotten.
IsSingleShot-same :
    (m m' : Motor)
    → ((key : String) → contains key m.store.seen ≡ true → contains key m'.store.seen ≡ true)
    → m'.sent ≡ m.sent
    → IsSingleShot m
    → IsSingleShot m'
IsSingleShot-same m m' grows same h = record {
  once = λ id. subst (λ l. sends_of id l ≤ 1) (sym same) (h.once id);
  claimed =
      λ id sent. grows (signal_key id) (h.claimed id (subst (λ l. 0 < sends_of id l) same sent));
}

-- A state that sent one more order, whose signal was not claimed and is now.
module _ (m m' : Motor) (order : Order) (venue : String)
    (grows : (key : String) → contains key m.store.seen ≡ true → contains key m'.store.seen ≡ true)
    (marked : contains (signal_key order.signal_id) m'.store.seen ≡ true)
    (fresh : contains (signal_key order.signal_id) m.store.seen ≡ false)
    (signed : order.order_id ≡ order.signal_id) (h : IsSingleShot m) where
  abbrev grown : List (String × BrokerOrderRequest)
  grown = (venue, request_of order) ∷ m.sent

  not_sent : (id : String) → id ≡ order.order_id → sends_of id m.sent ≡ 0
  not_sent id e = elim (Bool-cases (ltb 0 (sends_of id m.sent))) [
    | inl sent ↦
        let known = h.claimed id (ground arith) in
        absurd (cc (ap (λ k. contains (signal_key k) m.store.seen) (e ∙ signed), known, fresh))
    | inr none_sent ↦ ground arith
  ]

  grown_counts :
      (id : String)
      → ((id ≡ order.order_id) × (sends_of id grown ≡ 1)) ⊎ (sends_of id grown ≡ sends_of id m.sent)
  unfolding request_of
  grown_counts id =
      let counts = sends_of-cons id venue (request_of order) m.sent in
      elim (Bool-cases (str_eq id order.order_id)) [
        | inl e ↦
            let same = (eq_iff id order.order_id).0 e in
            inl (same, omega (arith, counts.0 e, not_sent id same))
        | inr e ↦ inr (counts.1 e)
      ]

  grown-IsSingleShot : m'.sent ≡ grown → IsSingleShot m'
  grown-IsSingleShot e = record {
    once = λ id. subst (λ l. sends_of id l ≤ 1) (sym e) (once_grown id);
    claimed = λ id sent. claimed_grown id (subst (λ l. 0 < sends_of id l) e sent);
  }
    where
      once_grown : (id : String) → sends_of id grown ≤ 1
      once_grown id = elim (grown_counts id) [
        | inl (same, one) ↦ omega (arith, one)
        | inr others ↦ omega (arith, others, h.once id)
      ]

      claimed_grown :
          (id : String) → 0 < sends_of id grown → contains (signal_key id) m'.store.seen ≡ true
      claimed_grown id sent = elim (grown_counts id) [
        | inl (same, one) ↦ ap (λ k. contains (signal_key k) m'.store.seen) (same ∙ signed) ∙ marked
        | inr others ↦ grows (signal_key id) (h.claimed id (omega (arith, others)))
      ]

-- One call of `execute` keeps the broker called at most once for each client order id.
step-IsSingleShot : (p : Parts) (c : Call) (m : Motor) → IsSingleShot m → IsSingleShot (step p c m)
step-IsSingleShot p c m h = elim (execute-Claims p c.world c.attested c.reference_price m) [
  | inl (store, sent) ↦
      IsSingleShot-same m (step p c m) (λ key k. ap (λ (s : Store). contains key s.seen) store ∙ k)
        sent h
  | inr (grows, marked) ↦ elim (execute-Sends p c.world c.attested c.reference_price m) [
    | inl same ↦ IsSingleShot-same m (step p c m) grows same h
    | inr (venue, n, sent, sends) ↦
        grown-IsSingleShot m (step p c m) c.attested.order venue grows marked
          sends.claimed.new_signal sends.cleared.id_signed h sent
  ]
]

session-IsSingleShot :
    (p : Parts) (calls : List Call) (m : Motor) → IsSingleShot m → IsSingleShot (session p calls m)
unfolding session
session-IsSingleShot p [] m h = h
session-IsSingleShot p (c ∷ calls) m h =
    session-IsSingleShot p calls (step p c m) (step-IsSingleShot p c m h)

-- From a motor that has sent nothing, whatever orders arrive in whatever sequence, and whatever
-- the clock, the disk, the feeds and the broker answer, the broker is called at most once for
-- each client order id.
pub session_single_shot :
    (p : Parts) (calls : List Call) (m : Motor) (id : String)
    → m.sent ≡ []
    → sends_of id (session p calls m).sent ≤ 1
unfolding sends_of
session_single_shot p calls m id e =
    let start : IsSingleShot m = record {
      once = λ k. subst (λ l. sends_of k l ≤ 1) (sym e) (omega arith);
      claimed = λ k sent. absurd (omega (arith, subst (λ l. 0 < sends_of k l) e sent));
    } in
    (session-IsSingleShot p calls m start).once id

-- Under a cap of at most 28 digits the session's reservations never pass it, whatever orders arrive and
-- whatever the world answers.
pub session_under_cap :
    (p : Parts) (calls : List Call) (m : Motor)
    → p.config.max_session_notional < precision_limit
    → m.reserved ≤ p.config.max_session_notional
    → (session p calls m).reserved ≤ p.config.max_session_notional
unfolding session
session_under_cap p [] m small h = h
session_under_cap p (c ∷ calls) m small h =
    session_under_cap p calls (step p c m) small
      (execute-Fits p c.world c.attested c.reference_price small m h)

-- A halted motor sends nothing more in the rest of the session, whatever orders arrive: it takes
-- a resume to trade again.
pub session_halted :
    (p : Parts) (calls : List Call) (m : Motor)
    → m.kill.halted ≡ true
    → (session p calls m).sent ≡ m.sent
unfolding session
session_halted p [] m h = refl
session_halted p (c ∷ calls) m h =
    let (reason, store, reserved, sent, still) =
      execute_halted p c.world c.attested c.reference_price m h in
    session_halted p calls (step p c m) still ∙ sent
