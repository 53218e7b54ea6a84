-- ===== src/Hitl/Tests/Runs.antt =====
-- The witnesses of the properties of the backend.
use agentic_fintech_ecosyste.Prelude.{◌≤◌, ◌↔◌, String, some, ◌≡◌, refl, arith}
use agentic_fintech_ecosyste.Sharp.Json.{has_nul, has_code}
use agentic_fintech_ecosyste.Hitl.Python.{pos, at_most, minus}
use agentic_fintech_ecosyste.Hitl.Holds.{required_approvals, reaches, by_notional}
use agentic_fintech_ecosyste.Money.{mul, round}
use agentic_fintech_ecosyste.Hitl.Approvers.{NeedsTwo, required_approvals_iff}
use agentic_fintech_ecosyste.Hitl.Decide.{lookup, required}
use agentic_fintech_ecosyste.Hitl.Service.{decide_parsed, decide_locked}
use agentic_fintech_ecosyste.Hitl.Orderly.{IsOrderly}
use agentic_fintech_ecosyste.Hitl.Asks.{resolutions, IsCleared, Asks, decide_parsed-Asks}
use agentic_fintech_ecosyste.Hitl.Session.{
  session, answered, AsksWhileOpen, session-IsOrderly, session_resolves_once,
}
use agentic_fintech_ecosyste.Hitl.Completes.{IsDecided, decide_locked_completes}
use agentic_fintech_ecosyste.Hitl.Keys.{key_of_injective}
use agentic_fintech_ecosyste.Hitl.Tests.Sample.{
  hitl, held, world, the_case, desk, calls, decision, threshold,
}

decide_parsed-Asks_example :
    Asks hitl world the_case desk (decide_parsed hitl world the_case desk).1
decide_parsed-Asks_example = decide_parsed-Asks hitl world the_case desk

session-IsOrderly_example : IsOrderly (session hitl calls desk).trail
session-IsOrderly_example = session-IsOrderly hitl calls desk tt

session_resolves_once_example :
    AsksWhileOpen "h1" (resolutions (session hitl calls desk).trail)
    × (answered "h1" (resolutions (session hitl calls desk).trail) ≤ 1)
session_resolves_once_example = session_resolves_once hitl calls desk "h1" refl

abbrev ann : String
ann = "ann"

abbrev first_id : String
first_id = "r1"

key_of_injective_example : (ann ≡ ann) × (first_id ≡ first_id)
unfolding has_nul has_code
key_of_injective_example = key_of_injective ann ann first_id first_id refl refl refl

required_approvals_iff_example :
    (required_approvals (pos 2_000_000_000) (pos 3_000_000_000) (threshold 100) (some (threshold 6))
      ≡ 2)
    ↔ NeedsTwo 2_000_000_000 3_000_000_000 (threshold 100) (some (threshold 6))
required_approvals_iff_example =
    required_approvals_iff 2_000_000_000 3_000_000_000 (threshold 100) (some (threshold 6))
      (omega arith)

cleared : IsCleared hitl world the_case desk
unfolding lookup at_most required required_approvals reaches by_notional mul round minus
cleared = record {
  held = held;
  fetched = refl;
  approver = refl;
  undecided = refl;
  signal_valid = refl;
  hold_valid = refl;
  approvable = λ e. record { single = refl; unscored = refl; cooled = refl };
}

decide_locked_completes_example : IsDecided "h1" (decide_locked hitl world the_case desk)
decide_locked_completes_example =
    decide_locked_completes hitl world the_case desk cleared (decision 1) refl refl
