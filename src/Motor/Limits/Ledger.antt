-- ===== src/Motor/Limits/Ledger.antt =====
-- limits.py: the session's reservations stay under the cap.
use agentic_fintech_ecosyste.Prelude.{ℕ, ◌+◌, ◌≤◌, ◌<◌, true, false, List, [], ◌∷◌, ◌≡◌, ◌↔◌, arith}
use agentic_fintech_ecosyste.Money.{precision_limit, add}
use agentic_fintech_ecosyste.Money.Exact.{add-eq, sub_clipped-eq}
use agentic_fintech_ecosyste.Motor.Limits.{try_reserve, release}

pub data LedgerOp : Type 0 where
  reserve : ℕ → LedgerOp
  frees : ℕ → LedgerOp

unfoldable pub apply : ℕ → LedgerOp → ℕ → ℕ
unfolding try_reserve release
apply cap (reserve amount) reserved = (try_reserve cap amount reserved).1
apply cap (frees amount) reserved = release amount reserved

unfoldable pub run : ℕ → List LedgerOp → ℕ → ℕ
run cap [] reserved = reserved
run cap (op ∷ ops) reserved = run cap ops (apply cap op reserved)

-- A refused reservation changes nothing.
pub try_reserve_refused :
    (cap amount reserved : ℕ)
    → (try_reserve cap amount reserved).0 ≡ false
    → (try_reserve cap amount reserved).1 ≡ reserved
unfolding try_reserve
try_reserve_refused cap amount reserved h = ground arith

-- A reservation never passes the cap, rounding included.
pub try_reserve-le-cap :
    (cap amount reserved : ℕ) → reserved ≤ cap → (try_reserve cap amount reserved).1 ≤ cap
unfolding try_reserve
try_reserve-le-cap cap amount reserved h = ground arith

-- At less than 29 digits a reservation is granted exactly when it is positive and, added to what is
-- reserved, does not pass the cap.
pub try_reserve_iff :
    (cap amount reserved : ℕ)
    → reserved + amount < precision_limit
    → ((try_reserve cap amount reserved).0 ≡ true) ↔ ((0 < amount) × (reserved + amount ≤ cap))
unfolding try_reserve
try_reserve_iff cap amount reserved h =
    let exact : add reserved amount ≡ reserved + amount = add-eq reserved amount h in
    (λ granted. (ground arith, ground arith), λ fits. ground arith)

-- At less than 29 digits a granted reservation that is released leaves the ledger as it was.
pub release-try_reserve :
    (cap amount reserved : ℕ)
    → reserved + amount < precision_limit
    → (try_reserve cap amount reserved).0 ≡ true
    → release amount (try_reserve cap amount reserved).1 ≡ reserved
unfolding try_reserve release
release-try_reserve cap amount reserved h granted =
    ground (arith, add-eq reserved amount h, sub_clipped-eq (reserved + amount) amount h)

pub release_le :
    (amount reserved : ℕ) → reserved < precision_limit → release amount reserved ≤ reserved
unfolding release
release_le amount reserved h = omega (arith, sub_clipped-eq reserved amount h)

-- Whatever is reserved and released, and in whatever order, the session's reservations never pass
-- a cap of at most 28 digits.
pub run-le-cap :
    (cap : ℕ) (ops : List LedgerOp) (reserved : ℕ)
    → cap < precision_limit
    → reserved ≤ cap
    → run cap ops reserved ≤ cap
unfolding run apply
run-le-cap cap [] reserved small h = h
run-le-cap cap (reserve amount ∷ ops) reserved small h =
    run-le-cap cap ops (try_reserve cap amount reserved).1 small
      (try_reserve-le-cap cap amount reserved h)
run-le-cap cap (frees amount ∷ ops) reserved small h =
    run-le-cap cap ops (release amount reserved) small
      (omega (arith, release_le amount reserved (omega arith)))
