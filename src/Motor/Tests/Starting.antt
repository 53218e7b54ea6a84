-- ===== src/Motor/Tests/Starting.antt =====
-- The validators and the constructor of the motor at concrete inputs.
use agentic_fintech_ecosyste.Prelude.{◌<◌, false, some, ◌≡◌, ◌⊎◌, refl}
use agentic_fintech_ecosyste.Money.{positive}
use agentic_fintech_ecosyste.Motor.Models.{buy, limit, direct, Order}
use agentic_fintech_ecosyste.Motor.Config.{MotorConfig}
use agentic_fintech_ecosyste.Motor.Validators.{
  RawOrder, durable_store, injected_store, opened_store, resolve_idempotency, make_motor,
  make_motor_production,
}
use agentic_fintech_ecosyste.Motor.Tests.Sample.{limits}

abbrev production : MotorConfig
production = record limits { environment = "production" }

make_motor_production_example :
    (0 < 1)
    × (false ≡ false)
    × (((injected_store ≡ injected_store) × (durable_store ≡ durable_store))
        ⊎ (injected_store ≡ opened_store))
unfolding make_motor resolve_idempotency
make_motor_production_example =
    make_motor_production production 1 false durable_store injected_store refl refl

abbrev raw : RawOrder
raw = record {
  order_id = "s1";
  signal_id = "s1";
  symbol = "BRK.B";
  created_at_ns = some 5;
  side = buy;
  order_type = limit;
  quantity = positive 3;
  limit_price = positive 7;
  stop_price = positive 0;
  preferred_venue = "";
  max_venue_toxicity = positive 0;
  algo = direct;
  pov_target_rate = positive 0;
  iceberg_display_size = positive 0;
}

abbrev made : Order
made = record {
  order_id = "s1";
  signal_id = "s1";
  symbol = "BRK.B";
  created_at_ns = 5;
  side = buy;
  order_type = limit;
  quantity = 3;
  limit_price = 7;
  stop_price = 0;
  preferred_venue = "";
  max_venue_toxicity = 0;
  algo = direct;
  pov_target_rate = 0;
  iceberg_display_size = 0;
}
