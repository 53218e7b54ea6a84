-- ===== src/Motor/Tests/Handling.antt =====
-- Requests at concrete inputs, and the witnesses of the properties of service.py, compliance.py,
-- canonical.py and proto_adapter.py.
use agentic_fintech_ecosyste.Prelude.{
  ℕ, zero, suc, ℤ, pos, negsuc, String, Bool, true, false, Option, none, some, List, [], ◌∷◌, ◌≡◌,
  ◌⊎◌, refl, sym, ap, ◌∙◌, codes, contains, strip, arith,
}
use mathlib.Core.Bool.{false≢true}
use agentic_fintech_ecosyste.Money.{positive, usable}
use agentic_fintech_ecosyste.Sharp.Json.{has_code}
use agentic_fintech_ecosyste.Sharp.Tests.{lib, promotion, lookup}
use agentic_fintech_ecosyste.Motor.Models.{
  AttestedOrder, buy, limit, direct, check_type_consistency, ExecutionStatus, context_missing,
}
use agentic_fintech_ecosyste.Motor.Attestation.{compare_digest}
use agentic_fintech_ecosyste.Motor.Validators.{
  make_order, assemble, check_order_id, check_symbol, finite_non_negative, check_toxicity,
  check_created_at,
}
use agentic_fintech_ecosyste.Motor.Canonical.{
  Fields, build_canonical_text, canonical_text, render, line, is_clean, any_forbidden, is_forbidden,
  candidate_side_names,
}
use agentic_fintech_ecosyste.Motor.Canonical.Injective.{
  has_newline, IsPrinter, build_canonical_text_injective,
}
use agentic_fintech_ecosyste.Motor.Proto.{
  OrderMessage, AttestationMessage, Codec, attested_order_from_proto, is_consistent, build_order,
  order_of, side_of, type_of, algo_of, from_nanos, double_hint, select_signed_text, select, pick,
  canonical_attestation_text, encoded, fields_of,
}
use agentic_fintech_ecosyste.Motor.Proto.Covered.{IsOf, Covers, attested_order_from_proto-Covers}
use agentic_fintech_ecosyste.Motor.Compliance.{AegisDecision, loaded, stored}
use agentic_fintech_ecosyste.Motor.Compliance.Config.{
  ComplianceConfig, from_env, path_unless, build_compliance,
}
use agentic_fintech_ecosyste.Motor.Handle.{
  Desk, Answers, ExecuteRequest, handle_decision, handle_request,
}
use agentic_fintech_ecosyste.Motor.Handle.Promoted.{
  IsStrict, IsCompliant, handle_request_promoted, handle_decision_strict,
}
use agentic_fintech_ecosyste.Motor.Tests.Sample.{parts, open_world, filled_reply, idle}

-- As many ones as the number, after a minus for a negative one.
abbrev ones : ℕ → String
ones zero = String.[]
ones (suc n) = String.◌∷◌ "1" (ones n)

abbrev print : ℤ → String
print (pos n) = ones n
print (negsuc n) = String.◌∷◌ "-" (ones n)

abbrev count : String → ℕ
count String.[] = 0
count (String.◌∷◌ c s) = suc (count s)

count-ones : (n : ℕ) → count (ones n) ≡ n
count-ones zero = refl
count-ones (suc n) = ap suc (count-ones n)

abbrev is_minus : String → Bool
is_minus String.[] = false
is_minus (String.◌∷◌ c s) = has_code 45 (codes (String.◌∷◌ c String.[]))

ones_plain : (n : ℕ) → is_minus (ones n) ≡ false
unfolding has_code
ones_plain zero = refl
ones_plain (suc n) = refl

ones_one_line : (n : ℕ) → has_newline (ones n) ≡ false
unfolding has_code
ones_one_line zero = refl
ones_one_line (suc n) = ground (arith, ones_one_line n)

print_injective : (m n : ℤ) → print m ≡ print n → m ≡ n
unfolding has_code
print_injective (pos m) (pos n) e = ap pos (sym (count-ones m) ∙ ap count e ∙ count-ones n)
print_injective (pos m) (negsuc n) e = absurd (false≢true (sym (ones_plain m) ∙ ap is_minus e))
print_injective (negsuc m) (pos n) e =
    absurd (false≢true (sym (ones_plain n) ∙ sym (ap is_minus e)))
print_injective (negsuc m) (negsuc n) e =
    let same : suc m ≡ suc n = ap suc (sym (count-ones m)) ∙ ap count e ∙ ap suc (count-ones n) in
    ap negsuc (omega (arith, same))

print_one_line : (n : ℤ) → has_newline (print n) ≡ false
unfolding has_code
print_one_line (pos n) = ones_one_line n
print_one_line (negsuc n) = ground (arith, ones_one_line n)

printer : IsPrinter print
printer = record { injective = print_injective; one_line = print_one_line }

abbrev fields : Fields
fields = record {
  signal_id = "s1";
  symbol = "SPY";
  side = "BUY";
  order_type = "LIMIT";
  qty_nanos = pos 3;
  limit_price_nanos = pos 2;
  stop_price_nanos = pos 0;
  decided_at_ns = pos 1;
  expires_at_ns = pos 4;
  aegis_state_seq = pos 1;
  limits_config_sha256 = "ab";
  key_id = "k1";
}

abbrev signed_text : String
signed_text =
    "afe-attest-v1\nsignal_id=s1\nsymbol=SPY\nside=BUY\norder_type=LIMIT\nqty_nanos=111\nlimit_price_nanos=11\nstop_price_nanos=\ndecided_at_ns=1\nexpires_at_ns=1111\naegis_state_seq=1\nlimits_config_sha256=ab\nkey_id=k1\n"

text_built : build_canonical_text print fields ≡ some signed_text
unfolding build_canonical_text canonical_text render line is_clean any_forbidden is_forbidden
text_built = refl

build_canonical_text_injective_example : fields ≡ fields
unfolding has_code
build_canonical_text_injective_example =
    build_canonical_text_injective print printer fields fields signed_text refl refl text_built
      text_built

abbrev codec : Codec
codec = record { int_text = print; utf8 = codes; sha256 = λ b. b; one = 100 }

abbrev message : OrderMessage
message = record {
  order_id = "s1";
  signal_id = "s1";
  symbol = "SPY";
  created_at_ns = pos 1;
  side = 1;
  order_type = 2;
  quantity_nanos = pos 3;
  limit_price_nanos = pos 2;
  stop_price_nanos = pos 0;
  preferred_venue = "iex";
  max_venue_toxicity = positive 0;
  algo = 1;
  pov_target_rate = positive 0;
  iceberg_display_size = positive 0;
  status = 0;
  hsm_signature = 1 ∷ [];
  hsm_key_id = "k1";
  attestation_expires_at_ns = 4;
}

abbrev attestation_message : AttestationMessage
attestation_message = record {
  signature = 1 ∷ [];
  key_id = "k1";
  payload_sha256 = codes signed_text;
  decided_at_ns = 1;
  expires_at_ns = 4;
  aegis_state_seq = 1;
  limits_config_sha256 = "ab";
  canonical_version = "afe-attest-v1";
}

abbrev attested_order : AttestedOrder
attested_order = record {
  order = record {
    order_id = "s1";
    signal_id = "s1";
    symbol = "SPY";
    created_at_ns = 1;
    side = buy;
    order_type = limit;
    quantity = 3;
    limit_price = 2;
    stop_price = 0;
    preferred_venue = "iex";
    max_venue_toxicity = 0;
    algo = direct;
    pov_target_rate = 0;
    iceberg_display_size = 0;
  };
  attestation = record {
    signature = 1 ∷ [];
    key_id = "k1";
    signed_payload = codes signed_text;
    payload_sha256 = codes signed_text;
    decided_at_ns = 1;
    expires_at_ns = 4;
    attested_side = "BUY";
  };
}

converts : attested_order_from_proto codec message attestation_message false ≡ some attested_order
unfolding attested_order_from_proto is_consistent compare_digest build_order order_of side_of
    type_of algo_of from_nanos double_hint make_order assemble check_order_id check_symbol usable
    finite_non_negative check_toxicity check_created_at check_type_consistency select_signed_text
    candidate_side_names select pick canonical_attestation_text encoded fields_of
    build_canonical_text canonical_text render line is_clean any_forbidden is_forbidden
converts = refl

attested_order_from_proto-Covers_example :
    IsOf message attested_order.order × Covers codec attested_order
attested_order_from_proto-Covers_example =
    attested_order_from_proto-Covers codec message attestation_message false attested_order converts

abbrev env : String → Option String
env name = elim (contains name ("MOTOR_MANIFEST_DIR" ∷ "MOTOR_SHARP_STRATEGY_MAP" ∷ [])) [
  | true ↦ some "/data"
  | false ↦ none
]

abbrev config : ComplianceConfig
config = record {
  manifest_dir = some "/data";
  strategy_map_file = some "/data";
  allow_canary = false;
  audit_actor = "execution-motor";
}

abbrev strategies : List (String × String)
strategies = ("momentum", "p1") ∷ []

abbrev desk : Desk
desk = record {
  parts = parts;
  codec = codec;
  gates = build_compliance lib strategies config;
  order_words = λ o. "invalid";
  blocked_words = λ b. "blocked";
}

abbrev answers : Answers
answers = record {
  now = 5;
  lookup = lookup;
  load = λ proposal. loaded promotion;
  written = stored "digest";
  world = record (open_world filled_reply) { received = 2; submitted = 2; updated = 3; failed = 3 };
}

abbrev decision : AegisDecision
decision = record {
  decision = 1;
  signal_id = "s1";
  order = some message;
  attestation = some attestation_message;
}

abbrev execute_request : ExecuteRequest
execute_request = record {
  decision = decision;
  context = some (record {
    signal = some (record { signal_id = "s1"; symbol = "SPY"; strategy_id = "momentum" });
    snapshot = some "SPY";
  });
}

strict : IsStrict desk
unfolding from_env path_unless strip contains
strict = record {
  lower = λ s. s;
  env = env;
  config = config;
  library = lib;
  strategies = strategies;
  read = refl;
  no_canary = refl;
  gates = refl;
}

handle_request_promoted_example :
    ((handle_request desk answers execute_request none idle).1.sent ≡ idle.sent)
    ⊎ IsCompliant desk answers execute_request
handle_request_promoted_example =
    handle_request_promoted desk answers execute_request none idle strict

handle_decision_strict_example :
    let (report, after, given) = handle_decision desk answers decision none idle in
    (report.status ≡ ExecutionStatus.rejected)
    × (report.reject_reason ≡ some context_missing)
    × (after ≡ idle)
    × (given ≡ [])
handle_decision_strict_example = handle_decision_strict desk answers decision none idle strict
