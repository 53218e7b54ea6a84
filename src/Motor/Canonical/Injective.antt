-- ===== src/Motor/Canonical/Injective.antt =====
-- canonical.py: the text determines the fields.
use Prim.Native.Char.{Char}
use Prim.Native.String.{◌++◌}
use Prim.Native.String.append
use mathlib.Core.Path.{ap₂}
use mathlib.Core.Bool.{false≢true}
use agentic_fintech_ecosyste.Prelude.{
  ℕ, ℤ, String, Bool, true, false, some, List, [], ◌∷◌, ◌≡◌, refl, sym, ap, ◌∙◌, arith, codes, All,
}
use agentic_fintech_ecosyste.Sharp.Json.{has_code}
use agentic_fintech_ecosyste.Motor.Canonical.{
  is_forbidden, any_forbidden, is_clean, Fields, line, lines_of, render, canonical_text,
  build_canonical_text,
}

abbrev pub has_newline : String → Bool
has_newline s = has_code 10 (codes s)

any_forbidden-false : (cs : List ℕ) → any_forbidden cs ≡ false → has_code 10 cs ≡ false
unfolding any_forbidden is_forbidden has_code
any_forbidden-false [] h = refl
any_forbidden-false (c ∷ cs) h = let rest = any_forbidden-false cs (ground arith) in ground arith

rest_of : String → String
rest_of String.[] = String.[]
rest_of (String.◌∷◌ c s) = s

first_of : Char → String → Char
first_of default String.[] = default
first_of default (String.◌∷◌ c s) = c

abbrev newline : Char
newline = "\n"

-- `line`, by clauses.
lined : String → String → String
lined String.[] r = String.◌∷◌ newline r
lined (String.◌∷◌ c a) r = String.◌∷◌ c (lined a r)

line-lined : (a r : String) → line a r ≡ lined a r
unfolding line lined
line-lined String.[] r =
    (λ i. append.nil ("\n" ++ r) i)
    ∙ (λ i. append.cons newline String.[] r i)
    ∙ ap (λ t. String.◌∷◌ newline t) (λ i. append.nil r i)
line-lined (String.◌∷◌ c a) r =
    (λ i. append.cons c a ("\n" ++ r) i) ∙ ap (λ t. String.◌∷◌ c t) (line-lined a r)

-- A text splits at its first line end.
lined_injective :
    (a b r s : String)
    → has_newline a ≡ false
    → has_newline b ≡ false
    → lined a r ≡ lined b s
    → (a ≡ b) × (r ≡ s)
unfolding rest_of first_of lined has_code
lined_injective String.[] String.[] r s clear clear' e = (refl, ap rest_of e)
lined_injective String.[] (String.◌∷◌ y b) r s clear clear' e =
    absurd
      (false≢true (sym clear' ∙ ap (λ c. has_newline (String.◌∷◌ c b)) (sym (ap (first_of y) e))))
lined_injective (String.◌∷◌ x a) String.[] r s clear clear' e =
    absurd (false≢true (sym clear ∙ ap (λ c. has_newline (String.◌∷◌ c a)) (ap (first_of x) e)))
lined_injective (String.◌∷◌ x a) (String.◌∷◌ y b) r s clear clear' e =
    let (same, rest) = lined_injective a b r s (ground arith) (ground arith) (ap rest_of e) in
    (ap₂ (λ (c : Char) (t : String). String.◌∷◌ c t) (ap (first_of x) e) same, rest)

-- A common beginning drops out.
append_cancel : (a r s : String) → a ++ r ≡ a ++ s → r ≡ s
unfolding rest_of
append_cancel String.[] r s e = sym (λ i. append.nil r i) ∙ e ∙ (λ i. append.nil s i)
append_cancel (String.◌∷◌ c a) r s e =
    append_cancel a r s
      (ap rest_of (sym (λ i. append.cons c a r i) ∙ e ∙ (λ i. append.cons c a s i)))

line_injective :
    (name a b r s : String)
    → has_newline a ≡ false
    → has_newline b ≡ false
    → name ++ line a r ≡ name ++ line b s
    → (a ≡ b) × (r ≡ s)
line_injective name a b r s clear clear' e =
    lined_injective a b r s clear clear'
      (sym (line-lined a r) ∙ append_cancel name (line a r) (line b s) e ∙ line-lined b s)

-- The two lists have the same names in the same order.
abbrev Named : List (String × String) → List (String × String) → Type 0
Named [] [] = Unit
Named (x ∷ xs) (y ∷ ys) = (x.0 ≡ y.0) × Named xs ys
Named _ _ = ⊥

abbrev Agree : List (String × String) → List (String × String) → Type 0
Agree [] [] = Unit
Agree (x ∷ xs) (y ∷ ys) = (x.1 ≡ y.1) × Agree xs ys
Agree _ _ = ⊥

abbrev OneLine : String × String → Type 0
OneLine x = has_newline x.1 ≡ false

render-Agree :
    (xs ys : List (String × String))
    → Named xs ys
    → All OneLine xs
    → All OneLine ys
    → render xs ≡ render ys
    → Agree xs ys
unfolding render
render-Agree [] [] named clear clear' e = tt
render-Agree [] (y ∷ ys) named clear clear' e = absurd named
render-Agree (x ∷ xs) [] named clear clear' e = absurd named
render-Agree ((n, v) ∷ xs) ((n', v') ∷ ys) (same, named) (one, clear) (one', clear') e =
    let e' : n ++ line v (render xs) ≡ n ++ line v' (render ys) =
      e ∙ ap (λ k. k ++ line v' (render ys)) (sym same) in
    let (equal, rest) = line_injective n v v' (render xs) (render ys) one one' e' in
    (equal, render-Agree xs ys named clear clear' rest)

is_clean-one_line : (s : String) → is_clean s ≡ true → has_newline s ≡ false
unfolding is_clean
is_clean-one_line s h = any_forbidden-false (codes s) (ground arith)

-- What is asked of the printer of integers.
pub record IsPrinter (int_text : ℤ → String) : Type 0 where
  pub injective : (m n : ℤ) → int_text m ≡ int_text n → m ≡ n
  pub one_line : (n : ℤ) → has_newline (int_text n) ≡ false

module _ (int_text : ℤ → String) (printer : IsPrinter int_text) where
  lines-OneLine :
      (f : Fields) (t : String)
      → has_newline f.side ≡ false
      → build_canonical_text int_text f ≡ some t
      → All OneLine (lines_of int_text f)
  unfolding build_canonical_text
  lines-OneLine f t side h = (
    is_clean-one_line f.signal_id (ground arith),
    (
      is_clean-one_line f.symbol (ground arith),
      (
        side,
        (
          is_clean-one_line f.order_type (ground arith),
          (
            printer.one_line f.qty_nanos,
            (
              printer.one_line f.limit_price_nanos,
              (
                printer.one_line f.stop_price_nanos,
                (
                  printer.one_line f.decided_at_ns,
                  (
                    printer.one_line f.expires_at_ns,
                    (
                      printer.one_line f.aegis_state_seq,
                      (
                        is_clean-one_line f.limits_config_sha256 (ground arith),
                        (is_clean-one_line f.key_id (ground arith), tt),
                      ),
                    ),
                  ),
                ),
              ),
            ),
          ),
        ),
      ),
    ),
  )

  text_of_some :
      (f : Fields) (t : String)
      → build_canonical_text int_text f ≡ some t
      → canonical_text int_text f ≡ t
  unfolding build_canonical_text
  text_of_some f t h = ground arith

  fields_eq : (f g : Fields) → Agree (lines_of int_text f) (lines_of int_text g) → f ≡ g
  fields_eq f g
        (
          signal,
          (
            symbol,
            (side, (type, (qty, (limit, (stop, (decided, (expires, (seq, (limits, (key, u)))))))))),
          ),
        ) =
      λ i. record {
        signal_id = signal i;
        symbol = symbol i;
        side = side i;
        order_type = type i;
        qty_nanos = printer.injective _ _ qty i;
        limit_price_nanos = printer.injective _ _ limit i;
        stop_price_nanos = printer.injective _ _ stop i;
        decided_at_ns = printer.injective _ _ decided i;
        expires_at_ns = printer.injective _ _ expires i;
        aegis_state_seq = printer.injective _ _ seq i;
        limits_config_sha256 = limits i;
        key_id = key i;
      }

  -- No two different orders or decisions have the same signed text: where integers print
  -- differently and on one line, and the side is on one line, the canonical text determines all
  -- twelve fields.
  pub build_canonical_text_injective :
      (f g : Fields) (t : String)
      → has_newline f.side ≡ false
      → has_newline g.side ≡ false
      → build_canonical_text int_text f ≡ some t
      → build_canonical_text int_text g ≡ some t
      → f ≡ g
  unfolding canonical_text has_code
  build_canonical_text_injective f g t side side' h k =
      let same = text_of_some f t h ∙ sym (text_of_some g t k) in
      let (version, rest) =
        lined_injective "afe-attest-v1" "afe-attest-v1" _ _ refl refl
          (sym (line-lined _ _) ∙ same ∙ line-lined _ _) in
      fields_eq f g (
        render-Agree (lines_of int_text f) (lines_of int_text g)
          (
            refl,
            (
              refl,
              (refl, (refl, (refl, (refl, (refl, (refl, (refl, (refl, (refl, (refl, tt)))))))))),
            ),
          )
          (lines-OneLine f t side h) (lines-OneLine g t side' k) rest)
