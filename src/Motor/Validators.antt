-- ===== src/Motor/Validators.antt =====
-- The validators of models.py and toxicity.py, and the checks of motor.py and limits.py at
-- start-up. `none` and `false` are the exceptions. `one` is the number of units of a score of 1.
use agentic_fintech_ecosyste.Prelude.{
  ℕ, ◌≤◌, ◌<◌, String, Bool, true, false, not, Option, none, some, List, [], ◌∷◌, leb, ◌==◌, ◌&&◌,
  ◌||◌, codes, length, if◌then◌else◌, ◌≡◌, arith, ◌⊎◌,
}
use agentic_fintech_ecosyste.Money.{Decimal, positive, negative, infinite, nan, usable}
use agentic_fintech_ecosyste.Motor.Models.{Side, OrderType, ExecAlgo, Order, check_type_consistency}
use agentic_fintech_ecosyste.Motor.Config.{MotorConfig, is_production}

abbrev between : ℕ → ℕ → ℕ → Bool
between lo hi c = leb lo c && leb c hi

-- `[A-Z0-9.\-]`
abbrev is_symbol_char : ℕ → Bool
is_symbol_char c = between 65 90 c || between 48 57 c || c == 46 || c == 45

-- `[A-Za-z0-9._\-]`
abbrev is_id_char : ℕ → Bool
is_id_char c = is_symbol_char c || between 97 122 c || c == 95

every : (ℕ → Bool) → List ℕ → Bool
every p [] = true
every p (c ∷ cs) = p c && every p cs

is_symbol_from : List ℕ → Bool
is_symbol_from [] = false
is_symbol_from (c ∷ cs) = between 65 90 c && every is_symbol_char cs && leb (length cs) 9

-- `_check_order_id`
unfoldable pub check_order_id : String → Bool
unfolding every
check_order_id value = between 1 64 (length (codes value)) && every is_id_char (codes value)

-- `_check_symbol`
unfoldable pub check_symbol : String → Bool
unfolding is_symbol_from every
check_symbol value = is_symbol_from (codes value)

-- `_finite_non_negative`
unfoldable pub finite_non_negative : Decimal → Option ℕ
finite_non_negative (positive n) = some n
finite_non_negative (negative n) = none
finite_non_negative (infinite b) = none
finite_non_negative nan = none

-- `_check_toxicity`
unfoldable pub check_toxicity : ℕ → Decimal → Option ℕ
check_toxicity one (positive n) = if leb n one then some n else none
check_toxicity one _ = none

-- The fields of an order before they are validated; `created_at_ns` is none for a negative number.
pub record RawOrder : Type 0 where
  pub order_id : String
  pub signal_id : String
  pub symbol : String
  pub created_at_ns : Option ℕ
  pub side : Side
  pub order_type : OrderType
  pub quantity : Decimal
  pub limit_price : Decimal
  pub stop_price : Decimal
  pub preferred_venue : String
  pub max_venue_toxicity : Decimal
  pub algo : ExecAlgo
  pub pov_target_rate : Decimal
  pub iceberg_display_size : Decimal

-- `_check_created_at`
unfoldable pub check_created_at : Option ℕ → Option ℕ
check_created_at none = none
check_created_at (some n) = if n == 0 then none else some n

-- The order of numbers that have each been validated.
unfoldable pub assemble :
    RawOrder
    → Option ℕ
    → Option ℕ
    → Option ℕ
    → Option ℕ
    → Option ℕ
    → Option ℕ
    → Option ℕ
    → Option Order
assemble raw (some created) (some quantity) (some limit) (some stop) (some toxicity) (some rate)
      (some size) =
    some (record {
      order_id = raw.order_id;
      signal_id = raw.signal_id;
      symbol = raw.symbol;
      created_at_ns = created;
      side = raw.side;
      order_type = raw.order_type;
      quantity = quantity;
      limit_price = limit;
      stop_price = stop;
      preferred_venue = raw.preferred_venue;
      max_venue_toxicity = toxicity;
      algo = raw.algo;
      pov_target_rate = rate;
      iceberg_display_size = size;
    })
assemble raw _ _ _ _ _ _ _ = none

-- The construction of an `Order`: every field validator, then the one of the whole.
unfoldable pub make_order : ℕ → RawOrder → Option Order
make_order one raw =
    if check_order_id raw.order_id && check_symbol raw.symbol
    then elim (assemble raw (check_created_at raw.created_at_ns) (usable (some raw.quantity))
        (finite_non_negative raw.limit_price) (finite_non_negative raw.stop_price)
        (check_toxicity one raw.max_venue_toxicity) (finite_non_negative raw.pov_target_rate)
        (finite_non_negative raw.iceberg_display_size)) [
          | none ↦ none
          | some o ↦ if check_type_consistency o then some o else none
        ]
    else none

-- A number that must be given, finite and above zero once an order has a fill.
abbrev is_usable : Option Decimal → Bool
is_usable d = elim (usable d) [ none ↦ false | some _ ↦ true ]

at_most : Option ℕ → Option ℕ → Bool
at_most (some a) (some b) = leb a b
at_most _ _ = false

-- `VenueObservation.__post_init__`
unfoldable pub check_observation :
    Decimal → Decimal → Option Decimal → Decimal → Option Decimal → Bool
unfolding at_most
check_observation ordered filled price mid after =
    is_usable (some ordered)
    && at_most (finite_non_negative filled) (finite_non_negative ordered)
    && is_usable (some mid)
    && (if is_usable (some filled) then is_usable price && is_usable after else true)

-- The stores that may be injected, and those that the motor may end with.
pub data Injected : Type 0 where
  no_store in_memory durable_store : Injected

pub data Chosen : Type 0 where
  injected_store opened_store fresh_memory : Chosen

has_dir : Option String → Bool
has_dir none = false
has_dir (some _) = true

-- `_resolve_idempotency`; `none` is the `ConfigError`.
unfoldable pub resolve_idempotency : MotorConfig → Injected → Option Chosen
unfolding has_dir
resolve_idempotency config in_memory = if is_production config then none else some injected_store
resolve_idempotency config durable_store = some injected_store
resolve_idempotency config no_store =
    if has_dir config.state_dir
    then some opened_store
    else if is_production config
    then none
    else some fresh_memory

-- The constructor of the motor, with how many brokers it has and whether its verifier accepts
-- development keys; `none` is the `ConfigError`.
unfoldable pub make_motor : MotorConfig → ℕ → Bool → Injected → Option Chosen
make_motor config brokers accepts_dev_keys injected =
    if brokers == 0
    then none
    else if is_production config && accepts_dev_keys
    then none
    else resolve_idempotency config injected

-- `open_persistent_idempotency_store`, by whether the directory can be used, holds anything, and
-- has the file: it is opened, or `none` is the `ConfigError`.
unfoldable pub open_persistent : Bool → Bool → Bool → Bool
open_persistent usable_dir populated has_file =
    if usable_dir then not (populated && not has_file) else false

-- A production motor that starts has a broker, keeps its claims in a store that is not the
-- process's memory, and its verifier accepts no development key.
pub make_motor_production :
    (config : MotorConfig) (brokers : ℕ) (accepts_dev_keys : Bool) (injected : Injected)
    (c : Chosen)
    → is_production config ≡ true
    → make_motor config brokers accepts_dev_keys injected ≡ some c
    → (0 < brokers)
      × (accepts_dev_keys ≡ false)
      × (((c ≡ injected_store) × (injected ≡ durable_store)) ⊎ (c ≡ opened_store))
unfolding make_motor resolve_idempotency
make_motor_production config brokers accepts_dev_keys no_store c production started =
    (ground arith, ground arith, ground arith)
make_motor_production config brokers accepts_dev_keys in_memory c production started =
    absurd (ground arith)
make_motor_production config brokers accepts_dev_keys durable_store c production started =
    (ground arith, ground arith, ground arith)

assemble_fields :
    (raw : RawOrder) (a b c d e f g : Option ℕ) (o : Order)
    → assemble raw a b c d e f g ≡ some o
    → (a ≡ some o.created_at_ns) × (b ≡ some o.quantity) × (e ≡ some o.max_venue_toxicity)
unfolding assemble
assemble_fields raw a b c d e f g o h = (ground arith, ground arith, ground arith)

created_pos : (n : Option ℕ) (k : ℕ) → check_created_at n ≡ some k → 0 < k
unfolding check_created_at
created_pos n k h = ground arith

usable_pos : (d : Option Decimal) (k : ℕ) → usable d ≡ some k → 0 < k
unfolding usable
usable_pos d k h = ground arith

toxicity_le : (one : ℕ) (d : Decimal) (k : ℕ) → check_toxicity one d ≡ some k → k ≤ one
unfolding check_toxicity
toxicity_le one d k h = ground arith

make_order_parts :
    (one : ℕ) (raw : RawOrder) (o : Order)
    → make_order one raw ≡ some o
    → (assemble raw
          (check_created_at raw.created_at_ns)
          (usable (some raw.quantity))
          (finite_non_negative raw.limit_price)
          (finite_non_negative raw.stop_price)
          (check_toxicity one raw.max_venue_toxicity)
          (finite_non_negative raw.pov_target_rate)
          (finite_non_negative raw.iceberg_display_size)
        ≡ some o)
      × (check_type_consistency o ≡ true)
unfolding make_order
make_order_parts one raw o made = (ground arith, ground arith)

-- An order that was constructed has a positive quantity and time, a toxicity limit of at most one,
-- and the prices of its type.
pub make_order-IsValid :
    (one : ℕ) (raw : RawOrder) (o : Order)
    → make_order one raw ≡ some o
    → (0 < o.quantity)
      × (0 < o.created_at_ns)
      × (o.max_venue_toxicity ≤ one)
      × (check_type_consistency o ≡ true)
make_order-IsValid one raw o made =
    let (parts, consistent) = make_order_parts one raw o made in
    let (created, quantity, toxicity) = assemble_fields raw _ _ _ _ _ _ _ o parts in
    (
      usable_pos (some raw.quantity) o.quantity quantity,
      created_pos raw.created_at_ns o.created_at_ns created,
      toxicity_le one raw.max_venue_toxicity o.max_venue_toxicity toxicity,
      consistent,
    )
