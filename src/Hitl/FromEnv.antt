-- ===== src/Hitl/FromEnv.antt =====
-- config.py of hitl_backend: `Settings.from_env`, and what it refuses in production.
use agentic_fintech_ecosyste.Prelude.{
  String, Bool, true, not, Option, none, some, [], ◌∷◌, ◌&&◌, ◌||◌, str_eq, ltb, length, codes,
  contains, strip, if◌then◌else◌,
}
use agentic_fintech_ecosyste.Hitl.Startup.{
  Start, ready, ◌>>=◌, ◌>>◌, require, Parsers, Settings, TlsFiles, is_set, non_empty, check_secret,
  listen, value, tls, positive, non_negative, decimal, optional_decimal,
}

-- `env.get("HITL_ENV", "production").strip()`
abbrev raw_env : Option String → String
raw_env none = "production"
raw_env (some s) = strip s

abbrev or_empty : Option String → String
or_empty none = ""
or_empty (some s) = s

abbrev or_local : Option String → String
or_local none = "127.0.0.1:8090"
or_local (some s) = s

-- `env.get("HITL_AUDIT_ACTOR", "hitl-backend").strip() or "hitl-backend"`
abbrev actor : Option String → String
actor none = "hitl-backend"
actor (some s) = if str_eq (strip s) "" then "hitl-backend" else strip s

-- The material for TLS towards Aegis, and the motor with its own.
pub record Channels : Type 0 where
  pub aegis_tls : Option TlsFiles
  pub motor_target : Option String
  pub motor_tls : Option TlsFiles

module _ (p : Parsers) (env : String → Option String) where
  abbrev pub is_production : Bool
  is_production = contains (p.lower (raw_env (env "HITL_ENV"))) ("" ∷ "production" ∷ [])

  abbrev is_unscored : Bool
  is_unscored = contains (p.lower (value p env "HITL_UNSCORED_DEV")) ("1" ∷ "true" ∷ "yes" ∷ [])

  -- The issuer and the audience.
  unfoldable pub audience : Start (Option String × Option String)
  audience = do
    let issuer = non_empty (value p env "HITL_JWT_ISSUER")
    let aud = non_empty (value p env "HITL_JWT_AUDIENCE")
    require (not (is_production && not (is_set issuer && is_set aud)))
        "HITL_JWT_ISSUER and HITL_JWT_AUDIENCE are required in production"
    ready (issuer, aud)

  abbrev needed : String → String → Start String
  needed name why = do require (not (str_eq (value p env name) "")) why; ready (value p env name)

  unfoldable pub channels : Start Channels
  channels = do
    aegis_tls ← tls p env "HITL_AEGIS_TLS"
    let motor_target = non_empty (value p env "MOTOR_TARGET")
    motor_tls ← tls p env "HITL_MOTOR_TLS"
    require
        (not (
          is_production
          && (not (is_set aegis_tls) || is_set motor_target && not (is_set motor_tls))))
        "production requires mTLS material for Aegis (and the motor)"
    require (not (is_production && not (is_set motor_target)))
        "MOTOR_TARGET is required in production (released holds must execute)"
    ready (record { aegis_tls = aegis_tls; motor_target = motor_target; motor_tls = motor_tls })

  unfoldable pub unscored : Start Bool
  unscored = do
    require (not (is_production && is_unscored)) "HITL_UNSCORED_DEV is refused in production"
    ready is_unscored

  abbrev long_enough : Option String → Bool
  long_enough none = true
  long_enough (some s) = not (ltb (length (codes s)) 16)

  unfoldable pub token : Start (Option String)
  token = do
    require (long_enough (non_empty (value p env "HITL_API_TOKEN")))
        "HITL_API_TOKEN must be at least 16 characters when set"
    ready (non_empty (value p env "HITL_API_TOKEN"))

  -- `Settings.from_env`
  unfoldable pub from_env : Start Settings
  from_env = do
    let secret = or_empty (env "HITL_JWT_SECRET")
    check_secret p secret
    claims ← audience
    address ← listen p (or_local (env "HITL_BACKEND_LISTEN"))
    target ← needed "AEGIS_TARGET" "AEGIS_TARGET (host:port) is required"
    identity ←
        needed "HITL_AEGIS_IDENTITY"
          "HITL_AEGIS_IDENTITY is required: this service's certificate CN, which Aegis requires as ResolveHold.operator_id (role hold-resolver in identities.json)"
    links ← channels
    unscored_dev ← unscored
    service_token ← token
    aegis_timeout ← positive p env "HITL_AEGIS_TIMEOUT_S" "2"
    motor_timeout ← positive p env "HITL_MOTOR_TIMEOUT_S" "2"
    quantity ← decimal p env "HITL_FOUR_EYES_QUANTITY_THRESHOLD" "0"
    notional ← optional_decimal p env "HITL_FOUR_EYES_NOTIONAL_THRESHOLD_USD"
    cooling ← non_negative p env "HITL_COOLING_PERIOD_S" "0"
    ready (record {
      production = is_production;
      listen_host = address.0;
      listen_port = address.1;
      jwt_secret = secret;
      jwt_issuer = claims.0;
      jwt_audience = claims.1;
      service_token = service_token;
      aegis_target = target;
      aegis_identity = identity;
      aegis_tls = links.aegis_tls;
      aegis_timeout_s = aegis_timeout;
      motor_target = links.motor_target;
      motor_tls = links.motor_tls;
      motor_timeout_s = motor_timeout;
      four_eyes_quantity_threshold = quantity;
      four_eyes_notional_threshold_usd = notional;
      cooling_period_s = cooling;
      unscored_dev = unscored_dev;
      audit_actor = actor (env "HITL_AUDIT_ACTOR");
    })
