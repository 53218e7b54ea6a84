-- ===== src/Alpaca/Parse.antt =====
-- alpaca_parse.py: the JSON of an order.
use agentic_fintech_ecosyste.Prelude.{
  ℕ, ◌+◌, ◌-◌, ◌*◌, ◌^◌, ℤ, pos, minus, plus, times, String, Bool, Option, none, some, List, [],
  ◌∷◌, str_eq, length, codes, if◌then◌else◌,
}
use agentic_fintech_ecosyste.Money.{Decimal, infinite, nan}
use agentic_fintech_ecosyste.Sharp.Json.{
  Json, null, number, other, text, array, object, Items, no_items, item, get,
}
use agentic_fintech_ecosyste.Motor.Models.{ExecutionStatus, BrokerOrder}

-- What `_TS_RE` and `datetime` make of a timestamp: the seconds of its clock since 1970, the digits
-- after the point, and the offset, with whether it is ahead, in hours and minutes.
pub record Stamp : Type 0 where
  pub seconds : ℤ
  pub frac : String
  pub offset : Option (Bool × ℕ × ℕ)

-- Python's `json.loads`, `Decimal(str(value))`, regular expressions, `int` and `str`; `none` is the
-- `MalformedResponse`, here and below.
pub record Readers : Type 0 where
  pub loads : String → Option Json
  pub decimal_of : Json → Option Decimal
  pub stamp_of : String → Option Stamp
  pub digits : String → ℕ
  pub show : Json → String

-- `_STATUS.get(raw_status, UNKNOWN)`
abbrev statuses : List (String × ExecutionStatus)
statuses =
    ("new", ExecutionStatus.accepted)
    ∷ ("accepted", ExecutionStatus.accepted)
    ∷ ("pending_new", ExecutionStatus.accepted)
    ∷ ("accepted_for_bidding", ExecutionStatus.accepted)
    ∷ ("calculated", ExecutionStatus.accepted)
    ∷ ("held", ExecutionStatus.accepted)
    ∷ ("pending_cancel", ExecutionStatus.accepted)
    ∷ ("pending_replace", ExecutionStatus.accepted)
    ∷ ("partially_filled", ExecutionStatus.partially_filled)
    ∷ ("filled", ExecutionStatus.filled)
    ∷ ("canceled", ExecutionStatus.cancelled)
    ∷ ("replaced", ExecutionStatus.cancelled)
    ∷ ("expired", ExecutionStatus.expired)
    ∷ ("done_for_day", ExecutionStatus.expired)
    ∷ ("rejected", ExecutionStatus.rejected)
    ∷ ("suspended", ExecutionStatus.rejected)
    ∷ []

unfoldable pub status_in : String → List (String × ExecutionStatus) → ExecutionStatus
status_in raw [] = ExecutionStatus.unknown
status_in raw ((name, status) ∷ rest) = if str_eq raw name then status else status_in raw rest

-- `_str`
unfoldable pub str : Option Json → Option String
str (some (text s)) = if str_eq s "" then none else some s
str _ = none

-- Not finite.
unfoldable pub finite : Option Decimal → Option Decimal
finite none = none
finite (some (infinite b)) = none
finite (some nan) = none
finite (some d) = some d

module _ (r : Readers) where
  -- `_dec`
  unfoldable pub dec : Option Json → Option Decimal
  dec (some (text s)) = finite (r.decimal_of (text s))
  dec (some (number n)) = finite (r.decimal_of (number n))
  dec (some (other s)) = finite (r.decimal_of (other s))
  dec _ = none

  -- `_opt_dec`
  unfoldable pub opt_dec : Option Json → Option (Option Decimal)
  opt_dec none = some none
  opt_dec (some null) = some none
  opt_dec (some v) = elim (dec (some v)) [ none ↦ none | some d ↦ some (some d) ]

  -- A time zone ahead of UTC is subtracted, one behind it added.
  abbrev at_offset : ℤ → Option (Bool × ℕ × ℕ) → ℤ
  at_offset seconds none = seconds
  at_offset seconds (some (ahead, hours, minutes)) =
      if ahead
      then minus seconds (pos (hours * 3600 + minutes * 60))
      else plus seconds (hours * 3600 + minutes * 60)

  -- The nanoseconds of a timestamp that was matched.
  unfoldable pub nanos_of : Stamp → ℤ
  nanos_of s =
      plus (times (at_offset s.seconds s.offset) 1_000_000_000)
        (r.digits s.frac * 10 ^ (9 - length (codes s.frac)))

  -- `parse_ts_ns`
  unfoldable pub parse_ts_ns : Option Json → Option (Option ℤ)
  parse_ts_ns none = some none
  parse_ts_ns (some null) = some none
  parse_ts_ns (some (text s)) = elim (r.stamp_of s) [
    | none ↦ none
    | some stamp ↦ some (some (nanos_of stamp))
  ]
  parse_ts_ns _ = none

  -- `body.get("filled_qty", "0")`
  abbrev or_zero : Option Json → Option Json
  or_zero none = some (text "0")
  or_zero (some v) = some v

  -- The order of values that were each parsed.
  unfoldable pub order_from :
      Option String
      → Option String
      → Option String
      → Option String
      → Option Decimal
      → Option Decimal
      → Option (Option Decimal)
      → Option (Option ℤ)
      → Option (Option ℤ)
      → Option BrokerOrder
  order_from (some raw) (some id) (some client) (some symbol) (some qty) (some filled) (some price)
        (some submitted) (some filled_at) =
      some (record {
        broker_order_id = id;
        client_order_id = client;
        symbol = symbol;
        status = status_in raw statuses;
        raw_status = raw;
        quantity = qty;
        filled_quantity = filled;
        filled_avg_price = price;
        submitted_at_ns = submitted;
        filled_at_ns = filled_at;
      })
  order_from _ _ _ _ _ _ _ _ _ = none

  -- `parse_order`
  unfoldable pub parse_order : Json → Option BrokerOrder
  parse_order (object ms) =
      order_from (str (get "status" ms)) (str (get "id" ms)) (str (get "client_order_id" ms))
        (str (get "symbol" ms)) (dec (get "qty" ms)) (dec (or_zero (get "filled_qty" ms)))
        (opt_dec (get "filled_avg_price" ms)) (parse_ts_ns (get "submitted_at" ms))
        (parse_ts_ns (get "filled_at" ms))
  parse_order _ = none

  parse_items : Items → Option (List BrokerOrder)
  parse_items no_items = some []
  parse_items (item v rest) = elim (parse_order v) [
    | none ↦ none
    | some o ↦ elim (parse_items rest) [ none ↦ none | some more ↦ some (o ∷ more) ]
  ]

  -- `parse_orders`
  unfoldable pub parse_orders : Json → Option (List BrokerOrder)
  unfolding parse_items
  parse_orders (array vs) = parse_items vs
  parse_orders _ = none
