-- ===== src/Motor/Tests/Gates.antt =====
-- The parts of the motor at concrete inputs: claims, ledger, notional, switch, router, attestation.
use agentic_fintech_ecosyste.Prelude.{
  ℕ, String, ◌+◌, ◌*◌, ◌^◌, ◌≤◌, true, false, Option, some, none, List, [], ◌∷◌, ◌≡◌, ◌↔◌, ◌⊎◌,
  refl, map, Has, contains, lex_lt,
}
use agentic_fintech_ecosyste.Money.{positive, usable, mul, round}
use agentic_fintech_ecosyste.Motor.Halt.{KillSwitch, Signal, start, is_halted}
use agentic_fintech_ecosyste.Motor.Halt.Sticky.{demands, is_halted_iff, external_latch}
use agentic_fintech_ecosyste.Motor.Limits.{Store, fresh, duplicate, claim, load, compute_notional}
use agentic_fintech_ecosyste.Motor.Limits.Claims.{claim_in_memory, claim-claim_in_memory}
use agentic_fintech_ecosyste.Motor.Limits.Durable.{claim_survives_restart}
use agentic_fintech_ecosyste.Motor.Limits.Notional.{IsWorstCase, compute_notional-IsWorstCase}
use agentic_fintech_ecosyste.Motor.Router.{
  RouterConfig, deny, VenueObservation, route, threshold_of, assess, filter_window, choose,
  eligible_of, sort_key,
}
use agentic_fintech_ecosyste.Motor.Router.Choice.{IsChoice, route-IsChoice}
use agentic_fintech_ecosyste.Motor.Router.Limit.{IsWithin, route-IsWithin}
use agentic_fintech_ecosyste.Motor.Tests.Sample.{order}

-- 28 digits are kept; a tie goes to the even digit.
round_half_even :
    (round (10 ^ 28 + 5) ≡ 10 ^ 28)
    × (round (10 ^ 28 + 15) ≡ 10 ^ 28 + 20)
    × (round (10 ^ 28 + 6) ≡ 10 ^ 28 + 10)
unfolding round
round_half_even = (refl, refl, refl)

abbrev store : Store
store = record { seen = "signal:a" ∷ []; lines = some ("signal:a" ∷ []) }

claim_survives_restart_example :
    (file : List String) × ((claim true "signal:b" store).1.lines ≡ some file)
    × (t : Store) × (load (map some file) ≡ some t)
    × ((claim false "signal:b" t).0 ≡ duplicate)
unfolding claim contains
claim_survives_restart_example =
    claim_survives_restart true false "signal:b" store ("signal:a" ∷ []) refl (refl, tt) refl refl

-- A trusted price above the limit makes the notional.
compute_notional-IsWorstCase_example :
    IsWorstCase order (usable (some (positive 21_000_000_000))) (210 * 10 ^ 18)
unfolding compute_notional usable mul round
compute_notional-IsWorstCase_example =
    compute_notional-IsWorstCase order (some (positive 21_000_000_000)) (210 * 10 ^ 18) refl

abbrev halted_switch : KillSwitch
halted_switch = start true true

is_halted_iff_example :
    ((is_halted (Signal.raises "Timeout") (start false false)).0 ≡ false)
    ↔ ((demands (Signal.raises "Timeout") ≡ false) × ((start false false).halted ≡ false))
is_halted_iff_example = is_halted_iff (Signal.raises "Timeout") (start false false)

external_latch_example :
    ((start false true).latch_external ≡ true
      → demands (Signal.raises "Timeout") ≡ true
      → (is_halted (Signal.raises "Timeout") (start false true)).1.halted ≡ true)
    × ((start false true).latch_external ≡ false
        → (is_halted (Signal.raises "Timeout") (start false true)).1 ≡ start false true)
external_latch_example = external_latch (Signal.raises "Timeout") (start false true)

-- A score that is the number of observations in the window.
abbrev counted : List VenueObservation → Option ℕ
counted [] = none
counted (o ∷ rest) = some 40

abbrev seen_at : String → List VenueObservation
seen_at venue =
    record {
      timestamp_ns = 10 ^ 18;
      side = order.side;
      ordered_qty = 1;
      filled_qty = 0;
      avg_fill_price = none;
      arrival_mid = 1;
      mid_after_horizon = none;
    }
    ∷ []

abbrev router : RouterConfig
router = record { max_toxicity = 50; unscored_policy = deny; window_days = 5 }

route_alpaca :
    (route counted router order ("alpaca" ∷ "nyse" ∷ []) seen_at (10 ^ 18)).venue ≡ some "alpaca"
unfolding route threshold_of assess filter_window choose eligible_of sort_key lex_lt
route_alpaca = refl

route-IsChoice_example :
    let d = route counted router order ("alpaca" ∷ "nyse" ∷ []) seen_at (10 ^ 18) in
    IsChoice order.preferred_venue d.assessments "alpaca"
route-IsChoice_example =
    route-IsChoice counted router order ("alpaca" ∷ "nyse" ∷ []) seen_at (10 ^ 18) "alpaca"
      route_alpaca

route-IsWithin_example :
    Has {A = String} "alpaca" ("alpaca" ∷ "nyse" ∷ [])
    × IsWithin deny (threshold_of router order) (some 40)
    × (threshold_of router order ≤ 50)
    × ((order.max_venue_toxicity ≡ 0) ⊎ (threshold_of router order ≤ order.max_venue_toxicity))
unfolding filter_window
route-IsWithin_example =
    route-IsWithin counted router order ("alpaca" ∷ "nyse" ∷ []) seen_at (10 ^ 18) "alpaca"
      route_alpaca

claim-claim_in_memory_example :
    (((claim_in_memory "signal:b" store.seen).0 ≡ true) ↔ ((claim true "signal:b" store).0 ≡ fresh))
    × ((claim true "signal:b" store).1.seen ≡ (claim_in_memory "signal:b" store.seen).1)
claim-claim_in_memory_example = claim-claim_in_memory "signal:b" store
