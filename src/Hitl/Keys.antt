-- ===== src/Hitl/Keys.antt =====
-- service.py of hitl_backend: the keys of the cache of replies.
use Prim.Native.Char.{Char, nul}
use Prim.Native.String.{◌++◌}
use Prim.Native.String.append
use mathlib.Core.Path.{ap₂}
use mathlib.Core.Bool.{false≢true}
use agentic_fintech_ecosyste.Prelude.{String, true, false, ◌≡◌, refl, sym, ap, ◌∙◌, arith}
use agentic_fintech_ecosyste.Sharp.Json.{has_nul, has_code}
use agentic_fintech_ecosyste.Hitl.Service.{key_of}

rest_of : String → String
rest_of String.[] = String.[]
rest_of (String.◌∷◌ c s) = s

first_of : Char → String → Char
first_of default String.[] = default
first_of default (String.◌∷◌ c s) = c

-- `a`, a NUL, and `r`.
joined : String → String → String
joined String.[] r = String.◌∷◌ nul r
joined (String.◌∷◌ c a) r = String.◌∷◌ c (joined a r)

append-joined : (a r : String) → a ++ "\0" ++ r ≡ joined a r
unfolding joined
append-joined String.[] r =
    (λ i. append.nil ("\0" ++ r) i)
    ∙ (λ i. append.cons nul String.[] r i)
    ∙ ap (λ t. String.◌∷◌ nul t) (λ i. append.nil r i)
append-joined (String.◌∷◌ c a) r =
    (λ i. append.cons c a ("\0" ++ r) i) ∙ ap (λ t. String.◌∷◌ c t) (append-joined a r)

joined-has_nul : (a r : String) → has_nul (joined a r) ≡ true
unfolding has_nul has_code joined
joined-has_nul String.[] r = refl
joined-has_nul (String.◌∷◌ c a) r = ground (arith, joined-has_nul a r)

-- A text splits at its last NUL.
joined_injective :
    (a b r s : String)
    → has_nul r ≡ false
    → has_nul s ≡ false
    → joined a r ≡ joined b s
    → (a ≡ b) × (r ≡ s)
unfolding rest_of first_of joined
joined_injective String.[] String.[] r s clear clear' e = (refl, ap rest_of e)
joined_injective String.[] (String.◌∷◌ y b) r s clear clear' e =
    absurd (false≢true (sym clear ∙ ap has_nul (ap rest_of e) ∙ joined-has_nul b s))
joined_injective (String.◌∷◌ x a) String.[] r s clear clear' e =
    absurd (false≢true (sym clear' ∙ ap has_nul (sym (ap rest_of e)) ∙ joined-has_nul a r))
joined_injective (String.◌∷◌ x a) (String.◌∷◌ y b) r s clear clear' e =
    let (same, rest) = joined_injective a b r s clear clear' (ap rest_of e) in
    (ap₂ (λ (c : Char) (t : String). String.◌∷◌ c t) (ap (first_of x) e) same, rest)

-- Two operators share no key: where request ids have no NUL, a key determines the operator and the
-- request id.
pub key_of_injective :
    (sub sub' id id' : String)
    → has_nul id ≡ false
    → has_nul id' ≡ false
    → key_of sub id ≡ key_of sub' id'
    → (sub ≡ sub') × (id ≡ id')
unfolding key_of
key_of_injective sub sub' id id' clear clear' e =
    joined_injective sub sub' id id' clear clear'
      (sym (append-joined sub id) ∙ e ∙ append-joined sub' id')
