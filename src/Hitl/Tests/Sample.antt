-- ===== src/Hitl/Tests/Sample.antt =====
-- A hold, an operator and the answers of the world, for tests.
use agentic_fintech_ecosyste.Prelude.{
  ℕ, String, Bool, true, Option, some, List, [], ◌∷◌, str_eq, leb,
}
use agentic_fintech_ecosyste.Sharp.Json.{Json, text, object, no_members, member}
use agentic_fintech_ecosyste.Hitl.Python.{ℤ, pos, negsuc, Python, answers}
use agentic_fintech_ecosyste.Hitl.Holds.{Signal, Decision, Held, Threshold}
use agentic_fintech_ecosyste.Hitl.Body.{Request}
use agentic_fintech_ecosyste.Hitl.Decide.{Policy, Operator, World, Desk}
use agentic_fintech_ecosyste.Hitl.Service.{Hitl, Case}
use agentic_fintech_ecosyste.Hitl.Session.{Call}

abbrev as_text : Option Json → String
as_text (some (text s)) = s
as_text _ = "None"

abbrev pub python : Python
python = record {
  int_text = λ n. "7";
  text_of = as_text;
  name_of = λ enum n. some "NAME";
  is_uuid = λ s. str_eq s "r1";
}

abbrev pub threshold : ℕ → Threshold
threshold n = record { coefficient = n; places = 0 }

abbrev is_short : ℤ → Bool
is_short (pos n) = leb n 5
is_short (negsuc n) = true

abbrev pub policy : Policy
policy = record {
  quantity_threshold = threshold 100;
  notional_threshold_usd = some (threshold 5000);
  cooling = true;
  too_soon = is_short;
  unscored_dev = true;
}

abbrev pub hitl : Hitl
hitl = record { python = python; policy = policy; relay = true }

abbrev pub operator : Operator
operator = record { sub = "ann"; role = "approver"; amr = "mfa" ∷ [] }

abbrev pub signal : Signal
signal = record {
  signal_id = "s1";
  symbol = "ACME";
  created_at_ns = pos 100;
  side = pos 1;
  quantity_nanos = pos 2_000_000_000;
  price_limit_nanos = pos 3_000_000_000;
  estimated_spread_cost_nanos = pos 1;
  estimated_market_impact_nanos = pos 1;
  estimated_venue_fees_nanos = pos 1;
  estimated_total_cost_nanos = pos 3;
  omega_text = "1.0";
  expected_value = "1.0";
  p_success = "0.5";
  p_failure = "0.5";
  reward_estimate = "1.0";
  risk_estimate = "1.0";
  regime = pos 1;
  regime_confidence = "0.9";
  strategy_id = "strategy";
  debate_summary = "summary";
  valid_until_ns = pos 1000;
}

abbrev pub decision : ℕ → Decision
decision n = record {
  hold_id = "h1";
  decision = n;
  decided_at_ns = pos 100;
  hold_expires_at_ns = pos 900;
  reasons = [];
  results = [];
}

abbrev pub held : Held
held = record { decision = decision 3; signal = signal }

-- Aegis approves the release, and the motor accepts it.
abbrev pub world : World
world = record {
  accepts = λ event. true;
  held = answers held;
  now = pos 200;
  resolution = λ r. answers (decision 1);
  ack = answers (record { accepted = true; status = "FILLED"; reject_reason = ""; detail = "" });
}

abbrev pub request : Bool → Request
request approve = record { approve = approve; reason = "reviewed by the desk"; request_id = "r1" }

abbrev pub the_case : Case
the_case = record { operator = operator; hold_id = "h1"; request = request true }

abbrev pub body : String → Json
body word = object (
    member "decision" (text word) (
      member "reason" (text "  reviewed by the desk ")
        (member "clientRequestId" (text "r1") no_members)))

abbrev pub desk : Desk
desk = record { finals = []; replies = []; trail = [] }

abbrev pub call : String → Call
call word = record { world = world; operator = operator; hold_id = "h1"; body = body word }

abbrev pub calls : List Call
calls = call "APPROVE" ∷ call "APPROVE" ∷ call "REJECT" ∷ []
