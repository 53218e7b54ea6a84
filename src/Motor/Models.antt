-- ===== src/Motor/Models.antt =====
-- models.py and broker.py: orders, attestations, reports, and what the broker is sent and returns.
-- An `Order` has passed the validators, which leave its numbers finite and non-negative.
use agentic_fintech_ecosyste.Prelude.{
  ℕ, ℤ, String, Bool, Option, none, some, List, ltb, true, false, not, ◌&&◌,
}
use agentic_fintech_ecosyste.Money.{Decimal, Finite}

pub data Side : Type 0 where
  buy sell : Side

pub data OrderType : Type 0 where
  market limit stop stop_limit : OrderType

pub data ExecAlgo : Type 0 where
  direct iceberg pov : ExecAlgo

pub data ExecutionStatus : Type 0 where
  rejected accepted partially_filled filled cancelled expired unknown : ExecutionStatus

pub data RejectReason : Type 0 where
  halted invalid_order attestation_missing attestation_invalid order_expired order_from_future
        short_not_permitted order_id_mismatch duplicate_order notional_undeterminable
        notional_cap_exceeded session_notional_cap_exceeded algo_unsupported no_eligible_venue
        broker_rejected submit_outcome_unknown internal_error context_missing context_mismatch
        strategy_not_promoted manifest_failed :
      RejectReason

-- Quantity and prices are in nanos; 0 is a price that is not set.
pub record Order : Type 0 where
  pub order_id : String
  pub signal_id : String
  pub symbol : String
  pub created_at_ns : ℕ
  pub side : Side
  pub order_type : OrderType
  pub quantity : ℕ
  pub limit_price : ℕ
  pub stop_price : ℕ
  pub preferred_venue : String
  pub max_venue_toxicity : ℕ
  pub algo : ExecAlgo
  pub pov_target_rate : ℕ
  pub iceberg_display_size : ℕ

abbrev pub client_order_id : Order → String
client_order_id o = o.order_id

-- The prices that each order type has.
abbrev required : OrderType → Bool × Bool
required market = (false, false)
required limit = (true, false)
required stop = (false, true)
required stop_limit = (true, true)

same : Bool → Bool → Bool
same true b = b
same false b = not b

unfoldable pub check_type_consistency : Order → Bool
unfolding same
check_type_consistency o =
    same (ltb 0 o.limit_price) (required o.order_type).0
    && same (ltb 0 o.stop_price) (required o.order_type).1

-- `bytes`, as its numbers.
abbrev pub Bytes : Type 0
Bytes = List ℕ

pub record Attestation : Type 0 where
  pub signature : Bytes
  pub key_id : String
  pub signed_payload : Bytes
  pub payload_sha256 : Bytes
  pub decided_at_ns : ℕ
  pub expires_at_ns : ℕ
  pub attested_side : String

pub record AttestedOrder : Type 0 where
  pub order : Order
  pub attestation : Attestation

pub record Fill : Type 0 where
  pub quantity : ℕ
  pub price : ℕ
  pub timestamp_ns : ℤ
  pub venue : String

pub record ExecutionReport : Type 0 where
  pub order_id : String
  pub client_order_id : String
  pub signal_id : String
  pub symbol : String
  pub side : Option Side
  pub status : ExecutionStatus
  pub requested_quantity : ℕ
  pub reject_reason : Option RejectReason
  pub reject_detail : String
  pub broker_order_id : Option String
  pub venue : Option String
  pub fills : List Fill
  pub arrival_price : Option Finite
  pub received_at_ns : ℕ
  pub submitted_at_ns : Option ℤ
  pub updated_at_ns : ℕ

-- The validator of a report: a rejection has a reason, and only it and `unknown` may have one.
abbrev pub check_reason_matches_status : ExecutionStatus → Option RejectReason → Bool
check_reason_matches_status rejected none = false
check_reason_matches_status rejected (some _) = true
check_reason_matches_status unknown _ = true
check_reason_matches_status accepted none = true
check_reason_matches_status partially_filled none = true
check_reason_matches_status filled none = true
check_reason_matches_status cancelled none = true
check_reason_matches_status expired none = true
check_reason_matches_status _ (some _) = false

pub record BrokerOrderRequest : Type 0 where
  pub client_order_id : String
  pub symbol : String
  pub side : Side
  pub order_type : OrderType
  pub quantity : ℕ
  pub limit_price : Option ℕ
  pub stop_price : Option ℕ
  pub time_in_force : String

pub record BrokerOrder : Type 0 where
  pub broker_order_id : String
  pub client_order_id : String
  pub symbol : String
  pub status : ExecutionStatus
  pub raw_status : String
  pub quantity : Decimal
  pub filled_quantity : Decimal
  pub filled_avg_price : Option Decimal
  pub submitted_at_ns : Option ℤ
  pub filled_at_ns : Option ℤ
