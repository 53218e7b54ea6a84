-- ===== src/Motor/Router.antt =====
-- sor.py, with `VenueObservation` and `filter_window` of toxicity.py: the choice of a venue. The
-- score of a venue's observations is an argument; scores and limits on them are counted in one
-- unit, fine enough for all of them.
pub mod Choice
pub mod Limit
use agentic_fintech_ecosyste.Prelude.{
  ℕ, ◌+◌, ◌*◌, ◌-◌, String, Bool, true, false, Option, none, some, List, [], ◌∷◌, map, leb, ltb,
  min, codes, lex_lt, str_eq, if◌then◌else◌, ◌&&◌,
}
use agentic_fintech_ecosyste.Motor.Models.{Order, Side}

pub record VenueObservation : Type 0 where
  pub timestamp_ns : ℕ
  pub side : Side
  pub ordered_qty : ℕ
  pub filled_qty : ℕ
  pub avg_fill_price : Option ℕ
  pub arrival_mid : ℕ
  pub mid_after_horizon : Option ℕ

abbrev pub day_ns : ℕ
day_ns = 86_400_000_000_000

-- `start <= timestamp <= now`, with `start = now - window_days * day`.
abbrev pub in_window : ℕ → ℕ → VenueObservation → Bool
in_window now_ns window_days o =
    leb now_ns (o.timestamp_ns + window_days * day_ns) && leb o.timestamp_ns now_ns

unfoldable pub filter_window : ℕ → ℕ → List VenueObservation → List VenueObservation
filter_window now_ns window_days [] = []
filter_window now_ns window_days (o ∷ rest) =
    let kept = filter_window now_ns window_days rest in
    if in_window now_ns window_days o then o ∷ kept else kept

pub data UnscoredPolicy : Type 0 where
  deny allow : UnscoredPolicy

pub record RouterConfig : Type 0 where
  pub max_toxicity : ℕ
  pub unscored_policy : UnscoredPolicy
  pub window_days : ℕ

pub record VenueAssessment : Type 0 where
  pub venue : String
  pub score : Option ℕ
  pub eligible : Bool
  pub detail : String

pub record RoutingDecision : Type 0 where
  pub venue : Option String
  pub threshold : ℕ
  pub assessments : List VenueAssessment

-- `_threshold`
unfoldable pub threshold_of : RouterConfig → Order → ℕ
threshold_of config order =
    if ltb 0 order.max_venue_toxicity
    then min config.max_toxicity order.max_venue_toxicity
    else config.max_toxicity

abbrev allows : UnscoredPolicy → Bool
allows deny = false
allows allow = true

-- The verdict of `_assess` on the score of the windowed observations, and its text.
abbrev pub is_eligible : UnscoredPolicy → ℕ → Option ℕ → Bool
is_eligible policy threshold none = allows policy
is_eligible policy threshold (some s) = leb s threshold

abbrev detail_of : ℕ → Option ℕ → String
detail_of threshold none = "unscored: insufficient evidence"
detail_of threshold (some s) = if leb s threshold then "ok" else "toxicity above threshold"

-- The key of `min`: a missing score last, then the score, then the name.
unfoldable pub sort_key : VenueAssessment → List ℕ
sort_key a = elim a.score [ none ↦ 1 ∷ 0 ∷ codes a.venue | some s ↦ 0 ∷ s ∷ codes a.venue ]

-- `min` keeps the first of the least.
unfoldable pub least : VenueAssessment → List VenueAssessment → VenueAssessment
least a [] = a
least a (b ∷ rest) = least (if lex_lt (sort_key b) (sort_key a) then b else a) rest

unfoldable pub eligible_of : List VenueAssessment → List VenueAssessment
eligible_of [] = []
eligible_of (a ∷ rest) = let kept = eligible_of rest in if a.eligible then a ∷ kept else kept

unfoldable pub names : String → List VenueAssessment → Bool
names v [] = false
names v (a ∷ rest) = if str_eq v a.venue then true else names v rest

-- One venue has one assessment, so the dictionary by venue has the same keys and least value.
unfoldable pub choose : String → List VenueAssessment → Option String
unfolding names least
choose preferred [] = none
choose preferred (a ∷ rest) =
    if names preferred (a ∷ rest) then some preferred else some (least a rest).venue

module _ (scorer : List VenueObservation → Option ℕ) where
  unfoldable pub assess :
      RouterConfig → ℕ → ℕ → (String → List VenueObservation) → String → VenueAssessment
  assess config threshold now_ns observations venue =
      let score = scorer (filter_window now_ns config.window_days (observations venue)) in
      record {
        venue = venue;
        score = score;
        eligible = is_eligible config.unscored_policy threshold score;
        detail = detail_of threshold score;
      }

  unfoldable pub route :
      RouterConfig → Order → List String → (String → List VenueObservation) → ℕ → RoutingDecision
  route config order candidates observations now_ns =
      let threshold = threshold_of config order in
      let assessments = map (assess config threshold now_ns observations) candidates in
      record {
        venue = choose order.preferred_venue (eligible_of assessments);
        threshold = threshold;
        assessments = assessments;
      }
