-- ===== src/Hitl/Holds.antt =====
-- holds.py of hitl_backend: a held signal, the approvals that it needs, and its JSON.
use agentic_fintech_ecosyste.Prelude.{
  ℕ, suc, ◌*◌, ◌^◌, String, Bool, Option, none, some, List, [], ◌∷◌, leb, if◌then◌else◌,
}
use agentic_fintech_ecosyste.Money.{mul}
use agentic_fintech_ecosyste.Sharp.Json.{
  Json, boolean, number, other, text, array, object, Items, no_items, item, Members, no_members,
  member,
}
use agentic_fintech_ecosyste.Hitl.Python.{
  ℤ, pos, negsuc, Python, Enumeration, signal_side, regime_label, reason_code,
}

-- The fields of `TradeSignal`; a double is its JSON text.
pub record Signal : Type 0 where
  pub signal_id : String
  pub symbol : String
  pub created_at_ns : ℤ
  pub side : ℤ
  pub quantity_nanos : ℤ
  pub price_limit_nanos : ℤ
  pub estimated_spread_cost_nanos : ℤ
  pub estimated_market_impact_nanos : ℤ
  pub estimated_venue_fees_nanos : ℤ
  pub estimated_total_cost_nanos : ℤ
  pub omega_text : String
  pub expected_value : String
  pub p_success : String
  pub p_failure : String
  pub reward_estimate : String
  pub risk_estimate : String
  pub regime : ℤ
  pub regime_confidence : String
  pub strategy_id : String
  pub debate_summary : String
  pub valid_until_ns : ℤ

pub record ControlResult : Type 0 where
  pub control_id : String
  pub is_hard : Bool
  pub passed : Bool
  pub reason : ℤ
  pub threshold : String
  pub observed : String
  pub detail : String

-- Aegis's decision on a signal.
pub record Decision : Type 0 where
  pub hold_id : String
  pub decision : ℕ
  pub decided_at_ns : ℤ
  pub hold_expires_at_ns : ℤ
  pub reasons : List ℤ
  pub results : List ControlResult

-- `HeldSignal`
pub record Held : Type 0 where
  pub decision : Decision
  pub signal : Signal

-- A finite `Decimal` that is not negative: the coefficient, and the digits after the point.
pub record Threshold : Type 0 where
  pub coefficient : ℕ
  pub places : ℕ

-- A count of the units 10^-digits reaches the threshold.
unfoldable pub reaches : ℕ → ℕ → Threshold → Bool
reaches digits n t = leb (t.coefficient * 10 ^ digits) (n * 10 ^ t.places)

-- The end of `required_approvals`, for a quantity below its threshold.
unfoldable pub by_notional : ℕ → ℤ → Option Threshold → ℕ
by_notional q (pos (suc p)) (some t) = if reaches 18 (mul q (suc p)) t then 2 else 1
by_notional q _ _ = 1

-- `required_approvals`; a negative quantity is below every threshold.
unfoldable pub required_approvals : ℤ → ℤ → Threshold → Option Threshold → ℕ
required_approvals (negsuc n) price t notional = 1
required_approvals (pos q) price t notional =
    if reaches 9 q t then 2 else by_notional q price notional

-- An entry of `approvals`.
pub record Approval : Type 0 where
  pub approver_sub : String
  pub decision : String
  pub reason : String
  pub decided_at_ns : ℤ

unfoldable pub object_of : List (String × Json) → Members
object_of [] = no_members
object_of ((key, value) ∷ rest) = member key value (object_of rest)

module _ (py : Python) where
  -- `_enum_name`
  unfoldable pub enum_name : Enumeration → ℤ → String
  enum_name enum value = elim (py.name_of enum value) [
    | some name ↦ name
    | none ↦ py.int_text value
  ]

  abbrev int_json : ℤ → Json
  int_json n = text (py.int_text n)

  names_json : List ℤ → Items
  unfolding enum_name
  names_json [] = no_items
  names_json (r ∷ rest) = item (text (enum_name reason_code r)) (names_json rest)

  control_json : ControlResult → Json
  unfolding enum_name object_of
  control_json c = object (
      object_of (
        ("controlId", text c.control_id)
        ∷ ("isHard", boolean c.is_hard)
        ∷ ("passed", boolean c.passed)
        ∷ ("reason", text (enum_name reason_code c.reason))
        ∷ ("threshold", other c.threshold)
        ∷ ("observed", other c.observed)
        ∷ ("detail", text c.detail)
        ∷ []))

  controls_json : List ControlResult → Items
  unfolding control_json
  controls_json [] = no_items
  controls_json (c ∷ rest) = item (control_json c) (controls_json rest)

  approval_json : Approval → Json
  unfolding object_of
  approval_json a = object (
      object_of (
        ("approverSub", text a.approver_sub)
        ∷ ("decision", text a.decision)
        ∷ ("reason", text a.reason)
        ∷ ("decidedAtNs", int_json a.decided_at_ns)
        ∷ []))

  approvals_json : List Approval → Items
  unfolding approval_json
  approvals_json [] = no_items
  approvals_json (a ∷ rest) = item (approval_json a) (approvals_json rest)

  abbrev signal_json : Signal → List (String × Json) → List (String × Json)
  signal_json s rest =
      ("signalId", text s.signal_id)
      ∷ ("symbol", text s.symbol)
      ∷ ("createdAtNs", int_json s.created_at_ns)
      ∷ ("side", text (enum_name signal_side s.side))
      ∷ ("quantityNanos", int_json s.quantity_nanos)
      ∷ ("priceLimitNanos", int_json s.price_limit_nanos)
      ∷ ("estimatedSpreadCostNanos", int_json s.estimated_spread_cost_nanos)
      ∷ ("estimatedMarketImpactNanos", int_json s.estimated_market_impact_nanos)
      ∷ ("estimatedVenueFeesNanos", int_json s.estimated_venue_fees_nanos)
      ∷ ("estimatedTotalCostNanos", int_json s.estimated_total_cost_nanos)
      ∷ ("omega", other s.omega_text)
      ∷ ("expectedValue", other s.expected_value)
      ∷ ("pSuccess", other s.p_success)
      ∷ ("pFailure", other s.p_failure)
      ∷ ("rewardEstimate", other s.reward_estimate)
      ∷ ("riskEstimate", other s.risk_estimate)
      ∷ ("regime", text (enum_name regime_label s.regime))
      ∷ ("regimeConfidence", other s.regime_confidence)
      ∷ ("strategyId", text s.strategy_id)
      ∷ ("debateSummary", text s.debate_summary)
      ∷ ("validUntilNs", int_json s.valid_until_ns)
      ∷ rest

  -- The pairs of `hold_json`, in order.
  unfoldable pub hold_json : Held → String → ℕ → List Approval → List (String × Json)
  unfolding names_json controls_json approvals_json
  hold_json held status required approvals =
      ("holdId", text held.decision.hold_id)
      ∷ signal_json held.signal (
          ("holdExpiresAtNs", int_json held.decision.hold_expires_at_ns)
          ∷ ("heldReasons", array (names_json held.decision.reasons))
          ∷ ("controls", array (controls_json held.decision.results))
          ∷ ("hitlStatus", text status)
          ∷ ("requiredApprovals", number required)
          ∷ ("approvals", array (approvals_json approvals))
          ∷ [])
