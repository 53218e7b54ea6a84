-- ===== src/Hitl/Hardened.antt =====
-- config.py of hitl_backend: what the settings guarantee.
use agentic_fintech_ecosyste.Prelude.{
  ◌≤◌, String, Bool, true, false, Option, ◌≡◌, sym, ◌∙◌, arith, length, codes,
}
use agentic_fintech_ecosyste.Hitl.Startup.{
  ready, Double, Parsers, min_secret_length, placeholder_fragments, any_part, Settings, is_set,
  check_secret, positive,
}
use agentic_fintech_ecosyste.Hitl.FromEnv.{
  is_production, audience, Channels, channels, unscored, from_env,
}

-- A secret of at least 32 characters without a placeholder, and bounded waits for Aegis and the
-- motor.
pub record IsSound (p : Parsers) (s : Settings) : Type 0 where
  pub long_secret : min_secret_length ≤ length (codes s.jwt_secret)
  pub own_secret : any_part p (p.lower s.jwt_secret) placeholder_fragments ≡ false
  pub aegis_waits : s.aegis_timeout_s.above_zero ≡ true
  pub motor_waits : s.motor_timeout_s.above_zero ≡ true

-- Tokens are checked for issuer and audience, both channels use TLS, released holds have a motor,
-- and the unscored mode is off.
pub record IsHardened (s : Settings) : Type 0 where
  pub issued : is_set s.jwt_issuer ≡ true
  pub addressed : is_set s.jwt_audience ≡ true
  pub aegis_secured : is_set s.aegis_tls ≡ true
  pub motor_configured : is_set s.motor_target ≡ true
  pub motor_secured : is_set s.motor_tls ≡ true
  pub scored : s.unscored_dev ≡ false

module _ (p : Parsers) (env : String → Option String) where
  check_secret-ready :
      (secret : String)
      → check_secret p secret ≡ ready tt
      → (min_secret_length ≤ length (codes secret))
        × (any_part p (p.lower secret) placeholder_fragments ≡ false)
  unfolding check_secret
  check_secret-ready secret h = (ground arith, ground arith)

  positive-ready :
      (name d : String) (x : Double) → positive p env name d ≡ ready x → x.above_zero ≡ true
  unfolding positive
  positive-ready name d x h = ground arith

  audience-ready :
      (issuer aud : Option String)
      → audience p env ≡ ready (issuer, aud)
      → is_production p env ≡ true
      → (is_set issuer ≡ true) × (is_set aud ≡ true)
  unfolding audience
  audience-ready issuer aud h live = (ground arith, ground arith)

  channels-ready :
      (links : Channels)
      → channels p env ≡ ready links
      → is_production p env ≡ true
      → (is_set links.aegis_tls ≡ true)
        × (is_set links.motor_target ≡ true)
        × (is_set links.motor_tls ≡ true)
  unfolding channels
  channels-ready links h live = (ground arith, ground arith, ground arith)

  unscored-ready : (b : Bool) → unscored p env ≡ ready b → is_production p env ≡ true → b ≡ false
  unfolding unscored
  unscored-ready b h live = ground arith

  -- Every step of `from_env` gave what the settings hold.
  record IsRead (s : Settings) : Type 0 where
    stage : s.production ≡ is_production p env
    secret : check_secret p s.jwt_secret ≡ ready tt
    claims : audience p env ≡ ready (s.jwt_issuer, s.jwt_audience)
    links :
        channels p env
        ≡ ready (record {
          aegis_tls = s.aegis_tls;
          motor_target = s.motor_target;
          motor_tls = s.motor_tls;
        })
    mode : unscored p env ≡ ready s.unscored_dev
    aegis_timeout : positive p env "HITL_AEGIS_TIMEOUT_S" "2" ≡ ready s.aegis_timeout_s
    motor_timeout : positive p env "HITL_MOTOR_TIMEOUT_S" "2" ≡ ready s.motor_timeout_s

  from_env-IsRead : (s : Settings) → from_env p env ≡ ready s → IsRead s
  unfolding from_env
  from_env-IsRead s h = record {
    stage = ground arith;
    secret = ground arith;
    claims = ground arith;
    links = ground arith;
    mode = ground arith;
    aegis_timeout = ground arith;
    motor_timeout = ground arith;
  }

  -- Settings that are accepted have a secret of at least 32 characters without a placeholder in it,
  -- and positive timeouts for Aegis and the motor.
  pub from_env-IsSound : (s : Settings) → from_env p env ≡ ready s → IsSound p s
  from_env-IsSound s h =
      let steps = from_env-IsRead s h in
      let (long, own) = check_secret-ready s.jwt_secret steps.secret in
      record {
        long_secret = long;
        own_secret = own;
        aegis_waits =
            positive-ready "HITL_AEGIS_TIMEOUT_S" "2" s.aegis_timeout_s steps.aegis_timeout;
        motor_waits =
            positive-ready "HITL_MOTOR_TIMEOUT_S" "2" s.motor_timeout_s steps.motor_timeout;
      }

  -- Settings that are accepted in production check tokens for issuer and audience, have TLS for
  -- Aegis and for a motor that is configured, and have the unscored mode off.
  pub from_env-IsHardened :
      (s : Settings) → from_env p env ≡ ready s → s.production ≡ true → IsHardened s
  from_env-IsHardened s h live =
      let steps = from_env-IsRead s h in
      let live' = sym steps.stage ∙ live in
      let (issued, addressed) = audience-ready s.jwt_issuer s.jwt_audience steps.claims live' in
      let (aegis, target, motor) = channels-ready _ steps.links live' in
      record {
        issued = issued;
        addressed = addressed;
        aegis_secured = aegis;
        motor_configured = target;
        motor_secured = motor;
        scored = unscored-ready s.unscored_dev steps.mode live';
      }
