-- ===== src/Motor/Router/Limit.antt =====
-- sor.py: only venues within the toxicity limit are chosen, and none only when none is within it.
use mathlib.Core.Path.{subst}
use agentic_fintech_ecosyste.Prelude.{
  ℕ, ◌≤◌, String, true, Option, none, some, List, [], ◌∷◌, map, ◌≡◌, ◌⊎◌, inl, inr, refl, arith,
  Has, sym, ap, ◌∙◌,
}
use agentic_fintech_ecosyste.Motor.Models.{Order}
use agentic_fintech_ecosyste.Motor.Router.{
  VenueObservation, UnscoredPolicy, allow, deny, RouterConfig, VenueAssessment, is_eligible,
  threshold_of, filter_window, assess, route,
}
use agentic_fintech_ecosyste.Motor.Router.Choice.{route-IsChoice, threshold_of_bounds}

Has-map :
    {A B : Type 0} (f : A → B) (xs : List A) (b : B)
    → Has b (map f xs)
    → (x : A) × Has x xs × (b ≡ f x)
Has-map f [] b h = elim h [ ]
Has-map f (x ∷ xs) b (inl same) = (x, inl refl, same)
Has-map f (x ∷ xs) b (inr later) = let r = Has-map f xs b later in (r.0, inr r.1, r.2)

-- The score of a venue that may be used: at most the limit, or missing where the policy allows it.
pub data IsWithin (policy : UnscoredPolicy) (limit : ℕ) (score : Option ℕ) : Type 0 where
  scored : (s : ℕ) → score ≡ some s → s ≤ limit → IsWithin policy limit score
  unscored : score ≡ none → policy ≡ allow → IsWithin policy limit score

is_eligible-IsWithin :
    (policy : UnscoredPolicy) (limit : ℕ) (score : Option ℕ)
    → is_eligible policy limit score ≡ true
    → IsWithin policy limit score
is_eligible-IsWithin allow limit none h = IsWithin.unscored refl refl
is_eligible-IsWithin deny limit none h = absurd (cc h)
is_eligible-IsWithin policy limit (some s) h = IsWithin.scored s refl (ground arith)

module _ (scorer : List VenueObservation → Option ℕ) (config : RouterConfig) (order : Order)
    (candidates : List String) (observations : String → List VenueObservation) (now_ns : ℕ) where
  abbrev score_at : String → Option ℕ
  score_at v = scorer (filter_window now_ns config.window_days (observations v))

  -- A chosen venue is a candidate, and its score over the observations in the window is at most
  -- the configured limit, and the order's limit if it sets one, or is missing under a policy that
  -- allows that.
  pub route-IsWithin :
      (v : String)
      → (route scorer config order candidates observations now_ns).venue ≡ some v
      → Has v candidates
        × IsWithin config.unscored_policy (threshold_of config order) (score_at v)
        × (threshold_of config order ≤ config.max_toxicity)
        × ((order.max_venue_toxicity ≡ 0) ⊎ (threshold_of config order ≤ order.max_venue_toxicity))
  unfolding route assess
  route-IsWithin v h =
      let c = route-IsChoice scorer config order candidates observations now_ns v h in
      let (x, found, same) =
        Has-map (assess scorer config (threshold_of config order) now_ns observations) candidates
          c.chosen c.assessed in
      let named : x ≡ v = ap (λ (a : VenueAssessment). a.venue) (sym same) ∙ c.venue in
      let fit : IsWithin config.unscored_policy (threshold_of config order) (score_at x) =
        is_eligible-IsWithin config.unscored_policy (threshold_of config order) (score_at x)
          (ap (λ (a : VenueAssessment). a.eligible) (sym same) ∙ c.eligible) in
      let bounds = threshold_of_bounds config order in
      let order_limit : (order.max_venue_toxicity ≡ 0)
          ⊎ (threshold_of config order ≤ order.max_venue_toxicity) =
        omega (arith, bounds.1) in
      (
        subst (λ w. Has w candidates) named found,
        subst (λ w. IsWithin config.unscored_policy (threshold_of config order) (score_at w)) named
            fit,
        bounds.0,
        order_limit,
      )
