-- ===== src/Hitl/Startup.antt =====
-- config.py of hitl_backend: the settings, from the environment.
use Prim.Native.String.{◌++◌}
use agentic_fintech_ecosyste.Prelude.{
  ℕ, String, Bool, true, false, not, Option, none, some, List, [], ◌∷◌, ◌&&◌, ◌||◌, str_eq, ltb,
  length, codes, strip, if◌then◌else◌,
}
use agentic_fintech_ecosyste.Hitl.Holds.{Threshold}

-- What a setting comes to; `refuses` is `ConfigError`.
pub data Start {ℓ} (A : Type ℓ) : Type ℓ where
  ready : A → Start A
  refuses : String → Start A

infixl 5 ◌>>=◌ ◌>>◌
abbrev pub ◌>>=◌ {ℓ κ} : {A : Type ℓ} {B : Type κ} → Start A → (A → Start B) → Start B
ready a >>= f = f a
refuses e >>= f = refuses e

abbrev pub ◌>>◌ {ℓ} : {B : Type ℓ} → Start (Unit {0}) → Start B → Start B
m >> k = m >>= λ _. k

abbrev pub require : Bool → String → Start (Unit {0})
require true e = ready tt
require false e = refuses e

-- What the code reads of a double.
pub record Double : Type 0 where
  pub repr : String
  pub is_finite : Bool
  pub above_zero : Bool
  pub below_zero : Bool

pub data Parsed : Type 0 where
  unusable : Parsed
  amount : Threshold → Parsed

-- Python's `lower`, `in`, `float`, `Decimal` and `int`, `none` their `ValueError`, or
-- a negative `int`, which `_listen` refuses in the same words; a decimal is unusable when it is negative or not finite. `last_colon` is `rpartition(":")`, without the colon;
-- `strip_brackets` is `strip("[]")`.
pub record Parsers : Type 0 where
  pub lower : String → String
  pub is_part : String → String → Bool
  pub float_of : String → Option Double
  pub decimal_of : String → Option Parsed
  pub int_of : String → Option ℕ
  pub last_colon : String → String × String
  pub strip_brackets : String → String

abbrev pub min_secret_length : ℕ
min_secret_length = 32

abbrev pub placeholder_fragments : List String
placeholder_fragments =
    "change-me" ∷ "change_me" ∷ "changeme" ∷ "replace-me" ∷ "replaceme" ∷ "placeholder"
    ∷ "your-secret" ∷ "yoursecret" ∷ "example" ∷ "default" ∷ "password" ∷ []

pub record TlsFiles : Type 0 where
  pub ca : String
  pub cert : String
  pub key : String

pub record Settings : Type 0 where
  pub production : Bool
  pub listen_host : String
  pub listen_port : ℕ
  pub jwt_secret : String
  pub jwt_issuer : Option String
  pub jwt_audience : Option String
  pub service_token : Option String
  pub aegis_target : String
  pub aegis_identity : String
  pub aegis_tls : Option TlsFiles
  pub aegis_timeout_s : Double
  pub motor_target : Option String
  pub motor_tls : Option TlsFiles
  pub motor_timeout_s : Double
  pub four_eyes_quantity_threshold : Threshold
  pub four_eyes_notional_threshold_usd : Option Threshold
  pub cooling_period_s : Double
  pub unscored_dev : Bool
  pub audit_actor : String

abbrev pub is_set {ℓ} : {A : Type ℓ} → Option A → Bool
is_set none = false
is_set (some a) = true

-- `env.get(name, default)`
abbrev or_default : Option String → String → String
or_default none d = d
or_default (some s) d = s

-- `s or d`
abbrev unless_empty : String → String → String
unless_empty s d = if str_eq s "" then d else s

-- `s or None`
unfoldable pub non_empty : String → Option String
non_empty s = if str_eq s "" then none else some s

-- `any(fragment in lowered for fragment in PLACEHOLDER_FRAGMENTS)`
unfoldable pub any_part : Parsers → String → List String → Bool
any_part p s [] = false
any_part p s (f ∷ rest) = p.is_part f s || any_part p s rest

-- `_check_secret`
unfoldable pub check_secret : Parsers → String → Start (Unit {0})
check_secret p secret = do
  require (not (ltb (length (codes secret)) min_secret_length))
      "HITL_JWT_SECRET must be at least 32 characters"
  require (not (any_part p (p.lower secret) placeholder_fragments))
      "HITL_JWT_SECRET looks like a placeholder"

unfoldable pub bad_listen : String
bad_listen = "HITL_BACKEND_LISTEN must be host:port"

unfoldable pub on_port : Parsers → String → Option ℕ → Start (String × ℕ)
unfolding bad_listen
on_port p host none = refuses bad_listen
on_port p host (some n) =
    if not (str_eq host "") && ltb 0 n && ltb n 65536
    then ready (p.strip_brackets host, n)
    else refuses bad_listen

-- `_listen`
unfoldable pub listen : Parsers → String → Start (String × ℕ)
unfolding on_port
listen p raw = let (host, port) = p.last_colon (strip raw) in on_port p host (p.int_of port)

-- `_tls`, from the three values.
unfoldable pub tls_files : String → String → String → String → Start (Option TlsFiles)
tls_files prefix ca cert key =
    if str_eq ca "" && str_eq cert "" && str_eq key ""
    then ready none
    else if str_eq ca "" || str_eq cert "" || str_eq key ""
    then refuses
        ("set all of " ++ prefix ++ "_CA, " ++ prefix ++ "_CERT, " ++ prefix ++ "_KEY or none")
    else ready (some (record { ca = ca; cert = cert; key = key }))

-- `_float`, from the parsed value.
unfoldable pub finite : String → Option Double → Start Double
finite name none = refuses (name ++ " must be a number")
finite name (some x) = if x.is_finite then ready x else refuses (name ++ " must be finite")

-- `_decimal`, from the parsed value.
unfoldable pub finite_amount : String → Option Parsed → Start Threshold
finite_amount name none = refuses (name ++ " must be a decimal number")
finite_amount name (some unusable) = refuses (name ++ " must be a finite number >= 0")
finite_amount name (some (amount t)) = ready t

module _ (p : Parsers) (env : String → Option String) where
  -- `env.get(name, "").strip()`
  abbrev pub value : String → String
  value name = strip (or_default (env name) "")

  unfoldable pub tls : String → Start (Option TlsFiles)
  tls prefix =
      tls_files prefix (value (prefix ++ "_CA")) (value (prefix ++ "_CERT"))
        (value (prefix ++ "_KEY"))

  -- `env.get(name, default).strip() or default`
  abbrev pub raw_value : String → String → String
  raw_value name d = unless_empty (strip (or_default (env name) d)) d

  unfoldable pub positive : String → String → Start Double
  positive name d = do
    x ← finite name (p.float_of (raw_value name d))
    require x.above_zero (name ++ " must be positive")
    ready x

  unfoldable pub non_negative : String → String → Start Double
  non_negative name d = do
    x ← finite name (p.float_of (raw_value name d))
    require (not x.below_zero) (name ++ " must be >= 0")
    ready x

  unfoldable pub decimal : String → String → Start Threshold
  decimal name d = finite_amount name (p.decimal_of (raw_value name d))

  unfoldable pub optional_decimal : String → Start (Option Threshold)
  optional_decimal name =
      if str_eq (value name) "" then ready none else decimal name "0" >>= λ t. ready (some t)
