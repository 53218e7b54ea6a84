-- ===== src/Motor/Config.antt =====
-- config.py: the caps and windows of the motor, and the checks that a configuration has passed.
use agentic_fintech_ecosyste.Prelude.{
  ℕ, String, Bool, Option, none, some, ◌||◌, not, ltb, ◌==◌, str_eq, if◌then◌else◌,
}

pub record MotorConfig : Type 0 where
  pub max_order_notional : ℕ
  pub max_session_notional : ℕ
  pub max_order_age_ns : ℕ
  pub max_clock_skew_ns : ℕ
  pub max_quote_age_ns : ℕ
  pub environment : String
  pub allow_short_selling : Bool
  pub state_dir : Option String

abbrev pub is_production : MotorConfig → Bool
is_production c = str_eq c.environment "production"

-- `__post_init__`: the check that fails, if one does.
pub data ConfigError : Type 0 where
  environment caps session_below_order windows : ConfigError

unfoldable pub check_config : MotorConfig → Option ConfigError
check_config c =
    if not (
      str_eq c.environment "production"
      || str_eq c.environment "staging"
      || str_eq c.environment "development"
      || str_eq c.environment "test")
    then some environment
    else if c.max_order_notional == 0 || c.max_session_notional == 0
    then some caps
    else if ltb c.max_session_notional c.max_order_notional
    then some session_below_order
    else if c.max_order_age_ns == 0 || c.max_quote_age_ns == 0
    then some windows
    else none
