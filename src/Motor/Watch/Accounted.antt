-- ===== src/Motor/Watch/Accounted.antt =====
-- kill_watch.py: what a sweep records of an order or of a venue stays recorded.
use mathlib.Core.List.{◌++◌ as append}
use agentic_fintech_ecosyste.Prelude.{
  String, Bool, true, false, List, [], ◌∷◌, inl, inr, refl, Has, All, if◌then◌else◌,
}
use agentic_fintech_ecosyste.Motor.Watch.{
  Listing, open_orders, unreadable, SweepResult, note, cancel_all, sweep_venue, sweep_from,
}

Has-append_left : (a : String) (xs ys : List String) → Has a xs → Has a (append xs ys)
Has-append_left a [] ys h = absurd h
Has-append_left a (x ∷ xs) ys (inl here) = inl here
Has-append_left a (x ∷ xs) ys (inr there) = inr (Has-append_left a xs ys there)

Has-append_last : (a : String) (xs : List String) → Has a (append xs (a ∷ []))
Has-append_last a [] = inl refl
Has-append_last a (x ∷ xs) = inr (Has-append_last a xs)

-- The later result has all that the earlier one has.
pub record Grows (r r' : SweepResult) : Type 0 where
  pub cancelled : (id : String) → Has id r.cancelled → Has id r'.cancelled
  pub failed : (id : String) → Has id r.failed → Has id r'.failed
  pub unreadable : (venue : String) → Has venue r.unreadable_venues → Has venue r'.unreadable_venues

Grows-refl : (r : SweepResult) → Grows r r
Grows-refl r = record { cancelled = λ id h. h; failed = λ id h. h; unreadable = λ v h. h }

Grows-trans : (r s t : SweepResult) → Grows r s → Grows s t → Grows r t
Grows-trans r s t first second = record {
  cancelled = λ id h. second.cancelled id (first.cancelled id h);
  failed = λ id h. second.failed id (first.failed id h);
  unreadable = λ venue h. second.unreadable venue (first.unreadable venue h);
}

Grows-note : (b : Bool) (id : String) (r : SweepResult) → Grows r (note b id r)
Grows-note true id r = record {
  cancelled = λ other h. Has-append_left other r.cancelled (id ∷ []) h;
  failed = λ other h. h;
  unreadable = λ venue h. h;
}
Grows-note false id r = record {
  cancelled = λ other h. h;
  failed = λ other h. Has-append_left other r.failed (id ∷ []) h;
  unreadable = λ venue h. h;
}

module _ (cancels : String → String → Bool) where
  -- An order of a venue stands among the cancelled ones if the venue cancels it, else among the
  -- failed ones.
  abbrev pub IsNoted : String → SweepResult → String → Type 0
  IsNoted venue r id = if cancels venue id then Has id r.cancelled else Has id r.failed

  -- Every order that a venue lists is noted; a venue that cannot be read is reported.
  abbrev pub IsHandled : SweepResult → String × Listing → Type 0
  IsHandled r (venue, unreadable) = Has venue r.unreadable_venues
  IsHandled r (venue, open_orders ids) = All (IsNoted venue r) ids

  IsNoted-Grows :
      (venue id : String) (r r' : SweepResult)
      → Grows r r'
      → IsNoted venue r id
      → IsNoted venue r' id
  IsNoted-Grows venue id r r' g h = by_answer (cancels venue id) h
    where
      by_answer :
          (b : Bool)
          → (if b then Has id r.cancelled else Has id r.failed)
          → if b then Has id r'.cancelled else Has id r'.failed
      by_answer true h = g.cancelled id h
      by_answer false h = g.failed id h

  All-IsNoted-Grows :
      (venue : String) (ids : List String) (r r' : SweepResult)
      → Grows r r'
      → All (IsNoted venue r) ids
      → All (IsNoted venue r') ids
  All-IsNoted-Grows venue [] r r' g all = tt
  All-IsNoted-Grows venue (id ∷ ids) r r' g (h, all) =
      (IsNoted-Grows venue id r r' g h, All-IsNoted-Grows venue ids r r' g all)

  IsHandled-Grows :
      (entry : String × Listing) (r r' : SweepResult)
      → Grows r r'
      → IsHandled r entry
      → IsHandled r' entry
  IsHandled-Grows (venue, unreadable) r r' g h = g.unreadable venue h
  IsHandled-Grows (venue, open_orders ids) r r' g h = All-IsNoted-Grows venue ids r r' g h

  note-IsNoted :
      (venue id : String) (r : SweepResult) → IsNoted venue (note (cancels venue id) id r) id
  note-IsNoted venue id r = by_answer (cancels venue id)
    where
      by_answer :
          (b : Bool) → if b then Has id (note b id r).cancelled else Has id (note b id r).failed
      by_answer true = Has-append_last id r.cancelled
      by_answer false = Has-append_last id r.failed

  cancel_all-Grows :
      (venue : String) (ids : List String) (r : SweepResult)
      → Grows r (cancel_all cancels venue ids r)
        × All (IsNoted venue (cancel_all cancels venue ids r)) ids
  unfolding cancel_all
  cancel_all-Grows venue [] r = (Grows-refl r, tt)
  cancel_all-Grows venue (id ∷ ids) r =
      let noted = note (cancels venue id) id r in
      let (grows, all) = cancel_all-Grows venue ids noted in
      (
        Grows-trans r noted (cancel_all cancels venue ids noted)
            (Grows-note (cancels venue id) id r) grows,
        (
          IsNoted-Grows venue id noted (cancel_all cancels venue ids noted) grows
              (note-IsNoted venue id r),
          all,
        ),
      )

  sweep_venue-IsHandled :
      (venue : String) (listing : Listing) (r : SweepResult)
      → Grows r (sweep_venue cancels venue listing r)
        × IsHandled (sweep_venue cancels venue listing r) (venue, listing)
  unfolding sweep_venue
  sweep_venue-IsHandled venue unreadable r = (
    record {
      cancelled = λ id h. h;
      failed = λ id h. h;
      unreadable = λ other h. Has-append_left other r.unreadable_venues (venue ∷ []) h;
    },
    Has-append_last venue r.unreadable_venues,
  )
  sweep_venue-IsHandled venue (open_orders ids) r =
      let (grows, all) = cancel_all-Grows venue ids r in
      let r' = cancel_all cancels venue ids r in
      (
        record {
          cancelled = λ id h. grows.cancelled id h;
          failed = λ id h. grows.failed id h;
          unreadable = λ v h. grows.unreadable v h;
        },
        All-IsNoted-Grows venue ids r' (sweep_venue cancels venue (open_orders ids) r)
            (record { cancelled = λ id h. h; failed = λ id h. h; unreadable = λ v h. h }) all,
      )

  -- The rest of a sweep forgets nothing, and handles every venue.
  pub sweep_from-IsHandled :
      (venues : List (String × Listing)) (r : SweepResult)
      → Grows r (sweep_from cancels venues r) × All (IsHandled (sweep_from cancels venues r)) venues
  unfolding sweep_from
  sweep_from-IsHandled [] r = (Grows-refl r, tt)
  sweep_from-IsHandled ((venue, listing) ∷ rest) r =
      let next = sweep_venue cancels venue listing r in
      let (first, handled) = sweep_venue-IsHandled venue listing r in
      let (grows, all) = sweep_from-IsHandled rest next in
      (
        Grows-trans r next (sweep_from cancels rest next) first grows,
        (IsHandled-Grows (venue, listing) next (sweep_from cancels rest next) grows handled, all),
      )
