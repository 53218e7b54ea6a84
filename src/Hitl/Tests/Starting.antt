-- ===== src/Hitl/Tests/Starting.antt =====
-- The witnesses on the configuration, on authentication and on replays.
use agentic_fintech_ecosyste.Prelude.{
  ℕ, String, true, false, Option, none, some, [], ◌∷◌, ◌≡◌, refl, All, is_blank, strip, contains,
  truncate,
}
use agentic_fintech_ecosyste.Sharp.Json.{
  Json, text, array, Members, no_members, member, no_items, item, get,
}
use agentic_fintech_ecosyste.Hitl.Python.{ok, error_json}
use agentic_fintech_ecosyste.Hitl.Body.{is_word, is_hold_id, is_id_code, all_id_codes}
use agentic_fintech_ecosyste.Hitl.Decide.{Operator, logged, lookup}
use agentic_fintech_ecosyste.Hitl.Service.{
  Case, decide_parsed, with_lock, decide_locked, conclude, remember, attempt_of,
}
use agentic_fintech_ecosyste.Hitl.Replay.{decide_parsed_replays}
use agentic_fintech_ecosyste.Hitl.Asks.{resolutions}
use agentic_fintech_ecosyste.Hitl.Session.{session}
use agentic_fintech_ecosyste.Hitl.Unscored.{Rejects, relays}
use agentic_fintech_ecosyste.Hitl.Auth.{
  Authenticator, Decoded, claims, authenticate, service_refused, with_bearer, partition_space,
  on_decoded, with_sub, with_role, with_amr, has_item,
}
use agentic_fintech_ecosyste.Hitl.Verified.{IsTrusted, HasToken, authenticate_granted}
use agentic_fintech_ecosyste.Hitl.Startup.{
  Start, ready, refuses, Double, Parsers, amount, Settings, non_empty, check_secret, any_part,
  listen, on_port, tls, tls_files, positive, non_negative, finite, decimal, finite_amount,
  optional_decimal,
}
use agentic_fintech_ecosyste.Hitl.FromEnv.{audience, channels, unscored, token, from_env}
use agentic_fintech_ecosyste.Hitl.Main.{service_of, production_only-Rejects}
use agentic_fintech_ecosyste.Hitl.Tests.Sample.{
  python, hitl, operator, world, request, desk, calls, threshold,
}

abbrev viewer : Case
viewer = record {
  operator = record operator { role = "viewer" };
  hold_id = "h1";
  request = request true;
}

abbrev again : Case
again = record viewer { request = request false }

abbrev denial : ℕ × Json
denial = (403, error_json "role_not_allowed" "only approvers can decide")

decide_parsed_replays_example :
    let later = session hitl calls (decide_parsed hitl world viewer desk).1 in
    decide_parsed hitl world again later
    ≡ (ok denial, logged "hitl.decision.replayed" again.operator (attempt_of again) later)
unfolding decide_parsed with_lock decide_locked conclude remember lookup is_hold_id all_id_codes
    is_id_code truncate
decide_parsed_replays_example =
    decide_parsed_replays hitl world viewer desk denial calls world again refl refl refl refl refl
      refl

abbrev second : Double
second = record { repr = "2"; is_finite = true; above_zero = true; below_zero = false }

abbrev parsers : Parsers
parsers = record {
  lower = λ s. s;
  is_part = λ part s. false;
  float_of = λ s. some second;
  decimal_of = λ s. some (amount (threshold 0));
  int_of = λ s. some 8090;
  last_colon = λ s. ("127.0.0.1", "8090");
  strip_brackets = λ s. s;
}

abbrev env : String → Option String
env name = elim (contains name ("HITL_ENV" ∷ "HITL_UNSCORED_DEV" ∷ "HITL_API_TOKEN" ∷ [])) [
  | true ↦ none
  | false ↦ some "a-text-of-more-than-thirty-two-characters"
]

abbrev settings_of : Start Settings → Settings → Settings
settings_of (ready s) d = s
settings_of (refuses e) d = d

abbrev settings : Settings
settings = record {
  production = true;
  listen_host = "127.0.0.1";
  listen_port = 8090;
  jwt_secret = "a-text-of-more-than-thirty-two-characters";
  jwt_issuer = some "a-text-of-more-than-thirty-two-characters";
  jwt_audience = some "a-text-of-more-than-thirty-two-characters";
  service_token = none;
  aegis_target = "a-text-of-more-than-thirty-two-characters";
  aegis_identity = "a-text-of-more-than-thirty-two-characters";
  aegis_tls = some (record {
    ca = "a-text-of-more-than-thirty-two-characters";
    cert = "a-text-of-more-than-thirty-two-characters";
    key = "a-text-of-more-than-thirty-two-characters";
  });
  aegis_timeout_s = second;
  motor_target = some "a-text-of-more-than-thirty-two-characters";
  motor_tls = some (record {
    ca = "a-text-of-more-than-thirty-two-characters";
    cert = "a-text-of-more-than-thirty-two-characters";
    key = "a-text-of-more-than-thirty-two-characters";
  });
  motor_timeout_s = second;
  four_eyes_quantity_threshold = threshold 0;
  four_eyes_notional_threshold_usd = some (threshold 0);
  cooling_period_s = second;
  unscored_dev = false;
  audit_actor = "a-text-of-more-than-thirty-two-characters";
}

starts : from_env parsers env ≡ ready settings
unfolding from_env check_secret any_part audience listen on_port channels tls tls_files unscored
    token positive finite decimal finite_amount optional_decimal non_negative non_empty strip
    contains
starts = refl

production_only-Rejects_example :
    All Rejects (resolutions (session (service_of python (λ x n. false) settings) calls desk).trail)
    × (relays (session (service_of python (λ x n. false) settings) calls desk).trail ≡ [])
production_only-Rejects_example =
    production_only-Rejects parsers env python (λ x n. false) settings calls desk starts refl refl

abbrev claim_set : Members
claim_set =
    member "sub" (text "ann") (
      member "role" (text "approver")
        (member "amr" (array (item (text "mfa") no_items)) no_members))

abbrev decode : Authenticator → String → Decoded
decode auth bearer = claims claim_set

abbrev authenticator : Authenticator
authenticator = record {
  secret = "secret";
  issuer = none;
  audience = none;
  service_token = some "service";
}

abbrev ann : Operator
ann = record { sub = "ann"; role = "approver"; amr = "mfa" ∷ [] }

authenticate_granted_example :
    IsTrusted (some "service") (some "service")
    × HasToken (decode authenticator) (some "Bearer t") ann
unfolding authenticate service_refused with_bearer partition_space on_decoded with_sub with_role
    with_amr has_item get is_blank is_word
authenticate_granted_example =
    authenticate_granted python decode authenticator (some "service") (some "Bearer t") ann refl
