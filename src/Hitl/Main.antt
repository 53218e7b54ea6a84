-- ===== src/Hitl/Main.antt =====
-- __main__.py of hitl_backend: the service and the authenticator that the settings build.
use agentic_fintech_ecosyste.Prelude.{String, Bool, true, Option, List, [], ◌≡◌, All}
use agentic_fintech_ecosyste.Hitl.Python.{ℤ, Python}
use agentic_fintech_ecosyste.Hitl.Decide.{Policy, Desk}
use agentic_fintech_ecosyste.Hitl.Service.{Hitl}
use agentic_fintech_ecosyste.Hitl.Auth.{Authenticator}
use agentic_fintech_ecosyste.Hitl.Startup.{ready, Double, Parsers, Settings, is_set}
use agentic_fintech_ecosyste.Hitl.FromEnv.{from_env}
use agentic_fintech_ecosyste.Hitl.Hardened.{from_env-IsHardened}
use agentic_fintech_ecosyste.Hitl.Asks.{resolutions}
use agentic_fintech_ecosyste.Hitl.Session.{Call, session}
use agentic_fintech_ecosyste.Hitl.Unscored.{Rejects, relays, session_never_approves}

-- The policy of `build`; `shorter` compares a wait with a period.
unfoldable pub policy_of : (Double → ℤ → Bool) → Settings → Policy
policy_of shorter s = record {
  quantity_threshold = s.four_eyes_quantity_threshold;
  notional_threshold_usd = s.four_eyes_notional_threshold_usd;
  cooling = s.cooling_period_s.above_zero;
  too_soon = shorter s.cooling_period_s;
  unscored_dev = s.unscored_dev;
}

-- The service of `build`.
unfoldable pub service_of : Python → (Double → ℤ → Bool) → Settings → Hitl
service_of py shorter s = record {
  python = py;
  policy = policy_of shorter s;
  relay = is_set s.motor_target;
}

-- The authenticator of `build`.
unfoldable pub authenticator_of : Settings → Authenticator
authenticator_of s = record {
  secret = s.jwt_secret;
  issuer = s.jwt_issuer;
  audience = s.jwt_audience;
  service_token = s.service_token;
}

-- A service that was started in production never approves a hold and never sends a decision to the
-- execution motor, whatever requests arrive and whatever the world answers: it only rejects.
pub production_only-Rejects :
    (p : Parsers) (env : String → Option String) (py : Python) (shorter : Double → ℤ → Bool)
    (s : Settings) (calls : List Call) (d : Desk)
    → from_env p env ≡ ready s
    → s.production ≡ true
    → d.trail ≡ []
    → All Rejects (resolutions (session (service_of py shorter s) calls d).trail)
      × (relays (session (service_of py shorter s) calls d).trail ≡ [])
unfolding service_of policy_of
production_only-Rejects p env py shorter s calls d h live start =
    session_never_approves (service_of py shorter s) calls d
      (from_env-IsHardened p env s h live).scored start
