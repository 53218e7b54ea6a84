-- ===== src/Motor/Canonical.antt =====
-- canonical.py: the text that Aegis signs. `int_text` is `str` of an integer; the encoding of the
-- text is left to its user.
pub mod Injective
use Prim.Native.String.{◌++◌}
use agentic_fintech_ecosyste.Prelude.{
  ℕ, ℤ, String, Bool, true, false, not, Option, none, some, List, [], ◌∷◌, codes, ltb, leb, ◌==◌,
  ◌&&◌, ◌||◌, str_eq, if◌then◌else◌,
}

abbrev pub canonical_version : String
canonical_version = "afe-attest-v1"

-- The category of a code point is Cc, or it is `=`.
unfoldable pub is_forbidden : ℕ → Bool
is_forbidden c = ltb c 32 || (leb 127 c && leb c 159) || c == 61

unfoldable pub any_forbidden : List ℕ → Bool
any_forbidden [] = false
any_forbidden (c ∷ cs) = is_forbidden c || any_forbidden cs

-- `_clean` passes.
unfoldable pub is_clean : String → Bool
is_clean value = not (str_eq value "") && not (any_forbidden (codes value))

pub record Fields : Type 0 where
  pub signal_id : String
  pub symbol : String
  pub side : String
  pub order_type : String
  pub qty_nanos : ℤ
  pub limit_price_nanos : ℤ
  pub stop_price_nanos : ℤ
  pub decided_at_ns : ℤ
  pub expires_at_ns : ℤ
  pub aegis_state_seq : ℤ
  pub limits_config_sha256 : String
  pub key_id : String

-- A value, a line end, and what follows.
unfoldable pub line : String → String → String
line value rest = value ++ ("\n" ++ rest)

-- The lines of the fields, each with its name.
abbrev pub lines_of : (ℤ → String) → Fields → List (String × String)
lines_of int_text f =
    ("signal_id=", f.signal_id)
    ∷ ("symbol=", f.symbol)
    ∷ ("side=", f.side)
    ∷ ("order_type=", f.order_type)
    ∷ ("qty_nanos=", int_text f.qty_nanos)
    ∷ ("limit_price_nanos=", int_text f.limit_price_nanos)
    ∷ ("stop_price_nanos=", int_text f.stop_price_nanos)
    ∷ ("decided_at_ns=", int_text f.decided_at_ns)
    ∷ ("expires_at_ns=", int_text f.expires_at_ns)
    ∷ ("aegis_state_seq=", int_text f.aegis_state_seq)
    ∷ ("limits_config_sha256=", f.limits_config_sha256)
    ∷ ("key_id=", f.key_id)
    ∷ []

unfoldable pub render : List (String × String) → String
render [] = ""
render ((name, value) ∷ rest) = name ++ line value (render rest)

unfoldable pub canonical_text : (ℤ → String) → Fields → String
canonical_text int_text f = line canonical_version (render (lines_of int_text f))

-- `build_canonical_text`; `none` is the `OrderValidationError`.
unfoldable pub build_canonical_text : (ℤ → String) → Fields → Option String
build_canonical_text int_text f =
    if is_clean f.signal_id
      && is_clean f.symbol
      && is_clean f.order_type
      && is_clean f.limits_config_sha256
      && is_clean f.key_id
    then some (canonical_text int_text f)
    else none

-- `candidate_side_names`; `none` is the `OrderValidationError`.
unfoldable pub candidate_side_names : ℕ → Bool → Option (List String)
candidate_side_names order_side allow_short =
    if order_side == 1
    then some ("BUY" ∷ [])
    else if order_side == 2
    then some (if allow_short then "SELL" ∷ "SELL_SHORT" ∷ [] else "SELL" ∷ [])
    else none
