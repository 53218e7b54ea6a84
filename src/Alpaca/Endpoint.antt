-- ===== src/Alpaca/Endpoint.antt =====
-- alpaca.py: the credentials, and the endpoint with the two opt-ins for live trading.
use agentic_fintech_ecosyste.Prelude.{
  String, Bool, true, false, not, Option, none, some, List, [], ◌∷◌, ◌≡◌, arith, ◌&&◌, ◌||◌, str_eq,
  eq_iff, is_blank, strip, if◌then◌else◌, Bool-cases, ap, ◌⊎◌, inl, inr,
}

abbrev pub paper_base_url : String
paper_base_url = "https://paper-api.alpaca.markets"

abbrev pub live_base_url : String
live_base_url = "https://api.alpaca.markets"

abbrev pub live_confirm_value : String
live_confirm_value = "I-UNDERSTAND-THIS-TRADES-REAL-MONEY"

abbrev placeholder_fragments : List String
placeholder_fragments =
    "change-me" ∷ "change_me" ∷ "changeme" ∷ "replace-me" ∷ "replaceme" ∷ "placeholder"
    ∷ "your-secret" ∷ "yoursecret" ∷ "your-key" ∷ "yourkey" ∷ "example" ∷ []

all_slashes : String → Bool
all_slashes String.[] = true
all_slashes (String.◌∷◌ c s) = str_eq (String.◌∷◌ c String.[]) "/" && all_slashes s

-- `s.rstrip("/")`
unfoldable pub drop_slashes : String → String
unfolding all_slashes
drop_slashes String.[] = String.[]
drop_slashes (String.◌∷◌ c s) =
    let rest = drop_slashes s in
    if all_slashes (String.◌∷◌ c s) then String.[] else String.◌∷◌ c rest

abbrev pub is_value : Option String → String → Bool
is_value none t = false
is_value (some s) t = str_eq s t

-- A base url, or the exception by its name.
pub data Endpoint : Type 0 where
  endpoint : String → Endpoint
  live_trading_refused config_error : Endpoint

module _ (environ : String → Option String) where
  -- Both opt-ins are set.
  unfoldable pub is_authorised : Bool
  is_authorised =
      is_value (environ "AFE_ENABLE_LIVE_TRADING") "true"
      && is_value (environ "AFE_LIVE_TRADING_CONFIRM") live_confirm_value

  unfoldable pub resolve_url : String → Endpoint
  resolve_url url =
      if str_eq url paper_base_url
      then endpoint paper_base_url
      else if str_eq url live_base_url
      then (if is_authorised then endpoint live_base_url else live_trading_refused)
      else config_error

  -- `resolve_base_url`
  unfoldable pub resolve_base_url : Option String → Endpoint
  resolve_base_url none = endpoint paper_base_url
  resolve_base_url (some requested) =
      if is_blank requested
      then endpoint paper_base_url
      else resolve_url (drop_slashes (strip requested))

-- `any(fragment in lowered for fragment in _PLACEHOLDER_FRAGMENTS)`
unfoldable pub any_part : (String → String → Bool) → String → List String → Bool
any_part is_part s [] = false
any_part is_part s (f ∷ rest) = is_part f s || any_part is_part s rest

-- `AlpacaCredentials.__post_init__` passes.
unfoldable pub check_credentials :
    (String → String) → (String → String → Bool) → String → String → Bool
check_credentials lower is_part key secret =
    not (is_blank key || is_blank secret)
    && not (any_part is_part (lower key) placeholder_fragments)
    && not (any_part is_part (lower secret) placeholder_fragments)

abbrev or_empty : Option String → String
or_empty none = ""
or_empty (some s) = s

-- `alpaca_broker_from_env`: the base url of the broker.
unfoldable pub alpaca_broker_from_env :
    (String → String) → (String → String → Bool) → (String → Option String) → Endpoint
alpaca_broker_from_env lower is_part environ =
    if check_credentials lower is_part (or_empty (environ "ALPACA_API_KEY"))
      (or_empty (environ "ALPACA_SECRET_KEY"))
    then resolve_base_url environ (environ "ALPACA_BASE_URL")
    else config_error

-- The paper endpoint, or the live one with both opt-ins in the environment.
abbrev pub IsGuarded : (String → Option String) → String → Type 0
IsGuarded environ url =
    (url ≡ paper_base_url)
    ⊎ ((url ≡ live_base_url)
        × (environ "AFE_ENABLE_LIVE_TRADING" ≡ some "true")
        × (environ "AFE_LIVE_TRADING_CONFIRM" ≡ some live_confirm_value))

is_value-eq : (o : Option String) (t : String) → is_value o t ≡ true → o ≡ some t
is_value-eq none t h = absurd (ground arith)
is_value-eq (some s) t h = ap some ((eq_iff s t).0 h)

resolve_url-IsGuarded :
    (environ : String → Option String) (requested url : String)
    → resolve_url environ requested ≡ endpoint url
    → IsGuarded environ url
unfolding resolve_url is_authorised
resolve_url-IsGuarded environ requested url h =
    elim (Bool-cases (str_eq requested paper_base_url)) [
      | inl same ↦ inl (ground arith)
      | inr differs ↦ elim (Bool-cases (str_eq requested live_base_url)) [
        | inr unknown ↦ absurd (ground arith)
        | inl live ↦ inr (
          ground arith,
          is_value-eq (environ "AFE_ENABLE_LIVE_TRADING") "true" (ground arith),
          is_value-eq (environ "AFE_LIVE_TRADING_CONFIRM") live_confirm_value (ground arith),
        )
      ]
    ]

resolve_base_url-IsGuarded :
    (environ : String → Option String) (requested : Option String) (url : String)
    → resolve_base_url environ requested ≡ endpoint url
    → IsGuarded environ url
unfolding resolve_base_url
resolve_base_url-IsGuarded environ none url h = inl (ground arith)
resolve_base_url-IsGuarded environ (some requested) url h = elim (Bool-cases (is_blank requested)) [
  | inl empty ↦ inl (ground arith)
  | inr given ↦ resolve_url-IsGuarded environ (drop_slashes (strip requested)) url (ground arith)
]

-- A broker from the environment talks to the paper endpoint, or to the live one, and to the live
-- one only when the environment holds both opt-ins with their exact values.
pub alpaca_broker_from_env-IsGuarded :
    (lower : String → String) (is_part : String → String → Bool) (environ : String → Option String)
    (url : String)
    → alpaca_broker_from_env lower is_part environ ≡ endpoint url
    → IsGuarded environ url
unfolding alpaca_broker_from_env
alpaca_broker_from_env-IsGuarded lower is_part environ url h =
    resolve_base_url-IsGuarded environ (environ "ALPACA_BASE_URL") url (ground arith)
