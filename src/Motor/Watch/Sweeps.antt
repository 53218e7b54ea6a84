-- ===== src/Motor/Watch/Sweeps.antt =====
-- kill_watch.py: a sweep accounts for every open order and every venue.
use agentic_fintech_ecosyste.Prelude.{
  ℕ, suc, ◌+◌, ◌≤◌, ap, ◌∙◌, String, Bool, true, false, List, [], ◌∷◌, ◌≡◌, refl, arith, length,
  length-append, All,
}
use agentic_fintech_ecosyste.Motor.Watch.Accounted.{IsHandled, sweep_from-IsHandled}
use agentic_fintech_ecosyste.Motor.Watch.{
  Listing, open_orders, unreadable, SweepResult, note, cancel_all, sweep_venue, sweep_from, sweep,
}

note_counts :
    (b : Bool) (id : String) (r : SweepResult)
    → (length (note b id r).cancelled + length (note b id r).failed
        ≡ suc (length r.cancelled + length r.failed))
      × ((note b id r).listed ≡ r.listed)
      × ((note b id r).unreadable_venues ≡ r.unreadable_venues)
note_counts true id r = (omega (arith, length-append r.cancelled (id ∷ [])), refl, refl)
note_counts false id r = (omega (arith, length-append r.failed (id ∷ [])), refl, refl)

module _ (cancels : String → String → Bool) where
  cancel_all_counts :
      (venue : String) (ids : List String) (r : SweepResult)
      → let r' = cancel_all cancels venue ids r in
        (length r'.cancelled + length r'.failed ≡ length r.cancelled + length r.failed + length ids)
        × (r'.listed ≡ r.listed)
        × (r'.unreadable_venues ≡ r.unreadable_venues)
  unfolding cancel_all
  cancel_all_counts venue [] r = (omega arith, refl, refl)
  cancel_all_counts venue (id ∷ ids) r =
      let (all, listed, silent) = cancel_all_counts venue ids (note (cancels venue id) id r) in
      let (one, same, still) = note_counts (cancels venue id) id r in
      (omega (arith, all, one), listed ∙ same, silent ∙ still)

  -- Every order that was listed is cancelled or failed, and every venue read or unreadable.
  abbrev pub IsCounted : ℕ → SweepResult → Type 0
  IsCounted venues r =
      (length r.cancelled + length r.failed ≡ r.listed) × (length r.unreadable_venues ≤ venues)

  sweep_venue-IsCounted :
      (n : ℕ) (venue : String) (listing : Listing) (r : SweepResult)
      → IsCounted n r
      → IsCounted (suc n) (sweep_venue cancels venue listing r)
  unfolding sweep_venue
  sweep_venue-IsCounted n venue unreadable r (counted, few) =
      (counted, omega (arith, few, length-append r.unreadable_venues (venue ∷ [])))
  sweep_venue-IsCounted n venue (open_orders ids) r (counted, few) =
      let (all, same, still) = cancel_all_counts venue ids r in
      (
        omega (arith, all, same, counted),
        omega (arith, few, ap (λ (l : List String). length l) still),
      )

  sweep_from-IsCounted :
      (n : ℕ) (venues : List (String × Listing)) (r : SweepResult)
      → IsCounted n r
      → IsCounted (n + length venues) (sweep_from cancels venues r)
  unfolding sweep_from
  sweep_from-IsCounted n [] r h = (h.0, omega (arith, h.1))
  sweep_from-IsCounted n ((venue, listing) ∷ rest) r h =
      let more =
        sweep_from-IsCounted (suc n) rest (sweep_venue cancels venue listing r)
          (sweep_venue-IsCounted n venue listing r h) in
      (more.0, omega (arith, more.1))

  abbrev none_yet : SweepResult
  none_yet = record { listed = 0; cancelled = []; failed = []; unreadable_venues = [] }

  -- A sweep handles every venue: each order that it lists stands among the cancelled ones if the
  -- venue cancels it and else among the failed ones, and a venue that cannot be read is reported.
  -- The number of orders listed is the number cancelled plus the number failed, and no more venues
  -- are reported as unreadable than there are.
  pub sweep_accounts :
      (venues : List (String × Listing))
      → All (IsHandled cancels (sweep cancels venues)) venues
        × (length (sweep cancels venues).cancelled + length (sweep cancels venues).failed
            ≡ (sweep cancels venues).listed)
        × (length (sweep cancels venues).unreadable_venues ≤ length venues)
  unfolding sweep
  sweep_accounts venues =
      let counted = sweep_from-IsCounted 0 venues none_yet (refl, omega arith) in
      ((sweep_from-IsHandled cancels venues none_yet).1, counted.0, omega (arith, counted.1))
