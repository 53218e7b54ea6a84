-- ===== src/Motor/Reports.antt =====
-- motor.py, the reports: `_rejected`, `_unknown` and the report of `_from_broker`. The reference
-- price is finite: of an infinite one or of a NaN pydantic makes no report, and raises.
use agentic_fintech_ecosyste.Prelude.{
  ℕ, zero, suc, ℤ, pos, negsuc, String, Option, none, some, List, [], ◌∷◌, truncate,
}
use agentic_fintech_ecosyste.Money.{Decimal, Finite, usable}
use agentic_fintech_ecosyste.Motor.Models.{
  Order, ExecutionReport, ExecutionStatus, RejectReason, submit_outcome_unknown, Fill, BrokerOrder,
  BrokerOrderRequest, client_order_id,
}

-- `detail[:300]`
abbrev detail_chars : ℕ
detail_chars = 300

unfoldable pub rejected :
    Order → RejectReason → String → ℕ → Option Finite → Option String → ℕ → ExecutionReport
rejected order reason detail received ref venue updated = record {
  order_id = order.order_id;
  client_order_id = client_order_id order;
  signal_id = order.signal_id;
  symbol = order.symbol;
  side = some order.side;
  status = ExecutionStatus.rejected;
  requested_quantity = order.quantity;
  reject_reason = some reason;
  reject_detail = truncate detail_chars detail;
  broker_order_id = none;
  venue = venue;
  fills = [];
  arrival_price = ref;
  received_at_ns = received;
  submitted_at_ns = none;
  updated_at_ns = updated;
}

unfoldable pub unknown_report :
    Order → String → String → ℕ → ℕ → Option Finite → ℕ → ExecutionReport
unknown_report order venue detail received submitted ref updated = record {
  order_id = order.order_id;
  client_order_id = client_order_id order;
  signal_id = order.signal_id;
  symbol = order.symbol;
  side = some order.side;
  status = ExecutionStatus.unknown;
  requested_quantity = order.quantity;
  reject_reason = some submit_outcome_unknown;
  reject_detail = truncate detail_chars detail;
  broker_order_id = none;
  venue = some venue;
  fills = [];
  arrival_price = ref;
  received_at_ns = received;
  submitted_at_ns = some (pos submitted);
  updated_at_ns = updated;
}

-- Python's `a or b` on an optional number.
abbrev pub or_else : Option ℤ → ℕ → ℤ
or_else (some (pos (suc n))) other = pos (suc n)
or_else (some (negsuc n)) other = negsuc n
or_else _ other = pos other

abbrev fill : ℕ → ℕ → ℤ → String → Fill
fill quantity price at venue = record {
  quantity = quantity;
  price = price;
  timestamp_ns = at;
  venue = venue;
}

-- The fills of a result; `none` is the `ValidationError` of a fill whose price is not above zero.
-- The broker's numbers are finite, since the model of `BrokerOrder` admits no others.
fills_from : Option ℕ → Option Decimal → ℤ → String → Option (List Fill)
fills_from none price at venue = some []
fills_from (some q) none at venue = some []
fills_from (some q) (some p) at venue = elim (usable (some p)) [
  | none ↦ none
  | some price ↦ some (fill q price at venue ∷ [])
]

unfoldable pub fills_of : BrokerOrder → ℕ → String → Option (List Fill)
unfolding fills_from
fills_of result now venue =
    fills_from (usable (some result.filled_quantity)) result.filled_avg_price
      (or_else result.filled_at_ns now) venue

unfoldable pub broker_report :
    Order → String → BrokerOrder → List Fill → ℕ → ℕ → Option Finite → ℕ → ExecutionReport
broker_report order venue result fills received submitted ref now = record {
  order_id = order.order_id;
  client_order_id = client_order_id order;
  signal_id = order.signal_id;
  symbol = order.symbol;
  side = some order.side;
  status = result.status;
  requested_quantity = order.quantity;
  reject_reason = none;
  reject_detail = "";
  broker_order_id = some result.broker_order_id;
  venue = some venue;
  fills = fills;
  arrival_price = ref;
  received_at_ns = received;
  submitted_at_ns = some (or_else result.submitted_at_ns submitted);
  updated_at_ns = now;
}

-- `limit_price or None`
abbrev price_or_none : ℕ → Option ℕ
price_or_none zero = none
price_or_none (suc p) = some (suc p)

unfoldable pub request_of : Order → BrokerOrderRequest
request_of order = record {
  client_order_id = client_order_id order;
  symbol = order.symbol;
  side = order.side;
  order_type = order.order_type;
  quantity = order.quantity;
  limit_price = price_or_none order.limit_price;
  stop_price = price_or_none order.stop_price;
  time_in_force = "day";
}
