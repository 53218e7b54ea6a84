-- ===== src/Motor/Router/Choice.antt =====
-- sor.py: the venue that is chosen is eligible, within the limits and the best one.
use agentic_fintech_ecosyste.Prelude.{
  ℕ, ◌≤◌, ◌<◌, String, Bool, true, false, Option, some, List, [], ◌∷◌, ◌≡◌, ◌⊎◌, inl, inr, refl,
  arith, lex_lt, lex_lt_irrefl, lex_lt_trans, lex_lt_of_not_lt, str_eq, eq_iff, Has, Bool-cases,
  sym, ap, ◌∙◌,
}
use mathlib.Core.Path.{subst}
use agentic_fintech_ecosyste.Motor.Models.{Order}
use agentic_fintech_ecosyste.Motor.Router.{
  VenueObservation, RouterConfig, VenueAssessment, threshold_of, sort_key, least, eligible_of,
  names, choose, route,
}

-- An order can tighten the configured limit and never loosen it.
pub threshold_of_bounds :
    (config : RouterConfig) (order : Order)
    → (threshold_of config order ≤ config.max_toxicity)
      × (0 < order.max_venue_toxicity → threshold_of config order ≤ order.max_venue_toxicity)
unfolding threshold_of
threshold_of_bounds config order = (ground arith, λ h. ground arith)

module _ (b : VenueAssessment) (rest : List VenueAssessment) where
  eligible_of-cons_kept : b.eligible ≡ true → eligible_of (b ∷ rest) ≡ b ∷ eligible_of rest
  unfolding eligible_of
  eligible_of-cons_kept e = ground arith

  eligible_of-cons_dropped : b.eligible ≡ false → eligible_of (b ∷ rest) ≡ eligible_of rest
  unfolding eligible_of
  eligible_of-cons_dropped e = ground arith

Has-eligible_of :
    (a : VenueAssessment) (l : List VenueAssessment)
    → Has a (eligible_of l)
    → Has a l × (a.eligible ≡ true)
Has-eligible_of a [] h = absurd (unfold eligible_of in h)
Has-eligible_of a (b ∷ rest) h = elim (Bool-cases b.eligible) [
  | inl e ↦ kept e (Has-eligible_of a rest) (subst (Has a) (eligible_of-cons_kept b rest e) h)
  | inr e ↦
      let r = Has-eligible_of a rest (subst (Has a) (eligible_of-cons_dropped b rest e) h) in
      (inr r.0, r.1)
]
  where
    kept :
        b.eligible ≡ true
        → (Has a (eligible_of rest) → Has a rest × (a.eligible ≡ true))
        → Has a (b ∷ eligible_of rest)
        → Has a (b ∷ rest) × (a.eligible ≡ true)
    kept e ih (inl same) = (inl same, ap (λ (x : VenueAssessment). x.eligible) same ∙ e)
    kept e ih (inr later) = let r = ih later in (inr r.0, r.1)

eligible_of-Has :
    (a : VenueAssessment) (l : List VenueAssessment)
    → Has a l
    → a.eligible ≡ true
    → Has a (eligible_of l)
eligible_of-Has a [] h e = elim h [ ]
eligible_of-Has a (b ∷ rest) (inl same) e =
    let e' : b.eligible ≡ true = ap (λ (x : VenueAssessment). x.eligible) (sym same) ∙ e in
    subst (Has a) (sym (eligible_of-cons_kept b rest e')) (inl same)
eligible_of-Has a (b ∷ rest) (inr later) e = elim (Bool-cases b.eligible) [
  | inl k ↦
      subst (Has a) (sym (eligible_of-cons_kept b rest k)) (inr (eligible_of-Has a rest later e))
  | inr k ↦ subst (Has a) (sym (eligible_of-cons_dropped b rest k)) (eligible_of-Has a rest later e)
]

names-Has :
    (v : String) (l : List VenueAssessment)
    → names v l ≡ true
    → (a : VenueAssessment) × Has a l × (a.venue ≡ v)
unfolding names
names-Has v [] h = absurd (cc h)
names-Has v (a ∷ rest) h = elim (Bool-cases (str_eq v a.venue)) [
  | inl e ↦ (a, inl refl, sym ((eq_iff v a.venue).0 e))
  | inr e ↦ let r = names-Has v rest (rw (e, names) at h) in (r.0, inr r.1, r.2)
]

Has-names : (a : VenueAssessment) (l : List VenueAssessment) → Has a l → names a.venue l ≡ true
unfolding names
Has-names a [] h = elim h [ ]
Has-names a (b ∷ rest) (inl same) = ground (arith, eq_iff a.venue b.venue)
Has-names a (b ∷ rest) (inr later) = ground (arith, Has-names a rest later)

-- The order on the keys of assessments.
abbrev before : VenueAssessment → VenueAssessment → Bool
before a b = lex_lt (sort_key a) (sort_key b)

module _ (a b : VenueAssessment) (rest : List VenueAssessment) where
  least-cons_before : before b a ≡ true → least a (b ∷ rest) ≡ least b rest
  unfolding least
  least-cons_before e = rw e

  least-cons_not_before : before b a ≡ false → least a (b ∷ rest) ≡ least a rest
  unfolding least
  least-cons_not_before e = rw e

skip_second :
    (c a b : VenueAssessment) (l : List VenueAssessment) → Has c (a ∷ l) → Has c (a ∷ b ∷ l)
skip_second c a b l (inl same) = inl same
skip_second c a b l (inr later) = inr (inr later)

least-Has :
    (a : VenueAssessment) (l : List VenueAssessment) (c : VenueAssessment)
    → c ≡ least a l
    → Has c (a ∷ l)
least-Has a [] c e = inl (unfold least in e)
least-Has a (b ∷ rest) c e = elim (Bool-cases (before b a)) [
  | inl k ↦ inr (least-Has b rest c (e ∙ least-cons_before a b rest k))
  | inr k ↦ skip_second c a b rest (least-Has a rest c (e ∙ least-cons_not_before a b rest k))
]

not_before_of_before :
    (a b c : VenueAssessment) → before b a ≡ true → before b c ≡ false → before a c ≡ false
not_before_of_before a b c h k = elim (Bool-cases (before a c)) [
  | inl e ↦ cc (lex_lt_trans (sort_key b) (sort_key a) (sort_key c) h e)
  | inr e ↦ e
]

not_before_of_not_before :
    (a b c : VenueAssessment) → before b a ≡ false → before a c ≡ false → before b c ≡ false
not_before_of_not_before a b c h k = elim (Bool-cases (before b c)) [
  | inl e ↦ cc (lex_lt_of_not_lt (sort_key b) (sort_key a) (sort_key c) h e)
  | inr e ↦ e
]

least_bound :
    (a : VenueAssessment) (l : List VenueAssessment) (c : VenueAssessment)
    → Has c (a ∷ l)
    → before c (least a l) ≡ false
least_bound a [] c (inl same) = rw same (unfold least in lex_lt_irrefl (sort_key a))
least_bound a [] c (inr later) = elim later [ ]
least_bound a (b ∷ rest) c h = elim (Bool-cases (before b a)) [
  | inl e ↦ rw (least-cons_before a b rest e) (taken e (least_bound b rest) h)
  | inr e ↦ rw (least-cons_not_before a b rest e) (passed e (least_bound a rest) h)
]
  where
    taken :
        before b a ≡ true
        → ((d : VenueAssessment) → Has d (b ∷ rest) → before d (least b rest) ≡ false)
        → Has c (a ∷ b ∷ rest)
        → before c (least b rest) ≡ false
    taken e bound (inl same) =
        rw same (not_before_of_before a b (least b rest) e (bound b (inl refl)))
    taken e bound (inr later) = bound c later

    passed :
        before b a ≡ false
        → ((d : VenueAssessment) → Has d (a ∷ rest) → before d (least a rest) ≡ false)
        → Has c (a ∷ b ∷ rest)
        → before c (least a rest) ≡ false
    passed e bound (inl same) = rw same (bound a (inl refl))
    passed e bound (inr (inl same)) =
        rw same (not_before_of_not_before a b (least a rest) e (bound a (inl refl)))
    passed e bound (inr (inr later)) = bound c (inr later)

-- What makes `v` the choice among assessments: one of them is eligible and names it, and it is
-- the preferred venue or no eligible one comes before it.
pub record IsChoice (preferred : String) (l : List VenueAssessment) (v : String) : Type 0 where
  pub chosen : VenueAssessment
  pub assessed : Has chosen l
  pub eligible : chosen.eligible ≡ true
  pub venue : chosen.venue ≡ v
  pub best :
      (v ≡ preferred)
      ⊎ ((b : VenueAssessment) → Has b l → b.eligible ≡ true → before b chosen ≡ false)

choose-IsChoice :
    (preferred v : String) (l kept : List VenueAssessment)
    → kept ≡ eligible_of l
    → choose preferred kept ≡ some v
    → IsChoice preferred l v
unfolding choose
choose-IsChoice preferred v l [] e h = absurd (cc h)
choose-IsChoice preferred v l (a ∷ rest) e h = elim (Bool-cases (names preferred (a ∷ rest))) [
  | inl p ↦
      let (c, found, named) = names-Has preferred (a ∷ rest) p in
      let (there, fit) = Has-eligible_of c l (subst (Has c) e found) in
      let v_eq : preferred ≡ v = ground arith in
      record {
        chosen = c;
        assessed = there;
        eligible = fit;
        venue = named ∙ v_eq;
        best = inl (sym v_eq);
      }
  | inr n ↦
      let (there, fit) =
        Has-eligible_of (least a rest) l
          (subst (Has (least a rest)) e (least-Has a rest (least a rest) refl)) in
      record {
        chosen = least a rest;
        assessed = there;
        eligible = fit;
        venue = ground arith;
        best =
            inr (λ b k f. least_bound a rest b (subst (Has b) (sym e) (eligible_of-Has b l k f)));
      }
]

-- A venue that the router chooses was assessed as eligible, and is the preferred venue or one
-- that no eligible venue comes before, by score, then by name, unscored venues last.
pub route-IsChoice :
    (scorer : List VenueObservation → Option ℕ) (config : RouterConfig) (order : Order)
    (candidates : List String) (observations : String → List VenueObservation) (now_ns : ℕ)
    (v : String)
    → (route scorer config order candidates observations now_ns).venue ≡ some v
    → IsChoice order.preferred_venue
        (route scorer config order candidates observations now_ns).assessments
        v
unfolding route
route-IsChoice scorer config order candidates observations now_ns v h =
    choose-IsChoice order.preferred_venue v _ _ refl h
