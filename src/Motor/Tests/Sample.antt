-- ===== src/Motor/Tests/Sample.antt =====
-- Concrete orders, worlds and motors for the tests.
use agentic_fintech_ecosyste.Prelude.{◌+◌, ◌*◌, ◌^◌, true, false, Option, none, some, [], ◌∷◌}
use agentic_fintech_ecosyste.Money.{Decimal, positive}
use agentic_fintech_ecosyste.Motor.Models.{
  Order, AttestedOrder, buy, limit, direct, ExecutionStatus, BrokerOrder,
}
use agentic_fintech_ecosyste.Motor.Config.{MotorConfig}
use agentic_fintech_ecosyste.Motor.Attestation.{returned}
use agentic_fintech_ecosyste.Motor.Halt.{Signal, start}
use agentic_fintech_ecosyste.Motor.Router.{allow}
use agentic_fintech_ecosyste.Motor.World.{
  Parts, Motor, World, no_source, known, not_given, BrokerReply, placed,
}
use agentic_fintech_ecosyste.Motor.Session.{Call}

abbrev pub limits : MotorConfig
limits = record {
  max_order_notional = 10 ^ 21;
  max_session_notional = 2 * 10 ^ 21;
  max_order_age_ns = 5_000_000_000;
  max_clock_skew_ns = 1_000_000_000;
  max_quote_age_ns = 2_000_000_000;
  environment = "production";
  allow_short_selling = false;
  state_dir = some "/var/lib/motor";
}

abbrev pub parts : Parts
parts = record {
  config = limits;
  router = record { max_toxicity = 50; unscored_policy = allow; window_days = 5 };
  scorer = λ o. none;
  verifier = record { sha256 = λ b. b; verify = λ payload signature key. returned true };
  venues = "alpaca" ∷ "iex" ∷ [];
}

-- Ten shares at a limit of 20.5.
abbrev pub order : Order
order = record {
  order_id = "s1";
  signal_id = "s1";
  symbol = "SPY";
  created_at_ns = 10 ^ 18;
  side = buy;
  order_type = limit;
  quantity = 10 * 10 ^ 9;
  limit_price = 20_500_000_000;
  stop_price = 0;
  preferred_venue = "iex";
  max_venue_toxicity = 0;
  algo = direct;
  pov_target_rate = 0;
  iceberg_display_size = 0;
}

abbrev pub attested : AttestedOrder
attested = record {
  order = order;
  attestation = record {
    signature = 1 ∷ [];
    key_id = "k1";
    signed_payload = 7 ∷ 8 ∷ [];
    payload_sha256 = 7 ∷ 8 ∷ [];
    decided_at_ns = 10 ^ 18;
    expires_at_ns = 10 ^ 18 + 3_000_000_000;
    attested_side = "BUY";
  };
}

-- A result with this status, filled quantity and average price.
abbrev pub result : ExecutionStatus → Decimal → Option Decimal → BrokerOrder
result status quantity price = record {
  broker_order_id = "b1";
  client_order_id = "s1";
  symbol = "SPY";
  status = status;
  raw_status = "filled";
  quantity = positive (10 * 10 ^ 9);
  filled_quantity = quantity;
  filled_avg_price = price;
  submitted_at_ns = none;
  filled_at_ns = none;
}

-- A world in which every gate is open, with this broker.
abbrev pub open_world : BrokerReply → World
open_world reply = record {
  received = 10 ^ 18 + 1_000_000;
  submitted = 10 ^ 18 + 2_000_000;
  updated = 10 ^ 18 + 3_000_000;
  failed = 10 ^ 18 + 4_000_000;
  first_signal = Signal.reports false;
  last_signal = Signal.reports false;
  durable = λ key. true;
  quote = no_source;
  stats = known (λ venue. []);
  release_check = not_given;
  broker = λ venue request. reply;
}

abbrev pub idle : Motor
idle = record {
  kill = start false false;
  store = record { seen = []; lines = some [] };
  reserved = 0;
  sent = [];
}

abbrev pub filled_reply : BrokerReply
filled_reply =
    placed (result ExecutionStatus.filled (positive (10 * 10 ^ 9)) (some (positive 20_400_000_000)))

abbrev pub call_filled : Call
call_filled = record {
  world = open_world filled_reply;
  attested = attested;
  reference_price = none;
}
